-- ===== src/Tank/Check.antt =====
-- `tank_io::check_response_` of tank_io.cpp.
--
-- The loop over the responses of a message takes fuel, one unit for each; a message has fewer
-- responses than bytes, so its length is enough, as `check_response_total` shows.
use wfc_io.Prelude.{
  ℕ, zero, suc, ◌<◌, ◌≡◌, ◌↔◌, Bool, true, false, not, ◌&&◌, Option, none, some, List, [], ◌∷◌,
  ◌++◌, ◌==◌, if◌then◌else◌, length, arith, Option-cases, Bool-cases, inl, inr,
}
use wfc_io.Prelude.Options.{◌>>=◌}
use wfc_io.Prelude.Dict.{Dict, lookup, erase}
use wfc_io.Tank.{TankOptions, Holder, Parsed, Env, Event, message, error, Tank, method_of}

abbrev pub bytes_eq : List ℕ → List ℕ → Bool
bytes_eq [] [] = true
bytes_eq [] (y ∷ ys) = false
bytes_eq (x ∷ xs) [] = false
bytes_eq (x ∷ xs) (y ∷ ys) = (x == y) && bytes_eq xs ys

-- The variables of the loop: `check_result`, `e`, and the map of the calls.
pub record Check : Type 0 where
  pub result : Bool
  pub error : Bool
  pub call_map : Dict (List ℕ)
  pub events : List Event

abbrev failed : Check → Check
failed c = record c { result = false; events = c.events ++ error ∷ [] }

-- The result of a call: the one that is expected is found by the identifier, and removed.
unfoldable pub compare_result : ℕ → List ℕ → Check → Check
compare_result id res c = elim (lookup id c.call_map) [
  | none ↦ failed c
  | some expected ↦
      let erased = record c { call_map = erase id c.call_map } in
      if bytes_eq expected res then erased else failed erased
]

-- One round of the loop up to `check_result &= current_check`.
unfoldable pub check_one : Holder → Check → Check
unfolding compare_result
check_one h c = if not h.is_response then failed c else elim h.get_id [
  | none ↦ record (failed c) { error = true }
  | some id ↦ elim h.get_result [
    | none ↦ record (failed c) { error = true }
    | some none ↦ failed c
    | some (some res) ↦ compare_result id res c
  ]
]

-- The do-while loop, from what the last `parse` read.
unfoldable pub check_loop : Env → ℕ → Parsed → Check → Option Check
unfolding check_one
check_loop env zero p c = none
check_loop env (suc fuel) p c =
    let c1 = check_one p.holder c in
    let p1 = env.parse p.rest c1.error in
    let rest = check_loop env fuel p1 c1 in
    if p.error
    then some (record c { error = true })
    else elim p1.rest [ none ↦ some (record c1 { error = p1.error }) | some d ↦ rest ]

-- The check of a JSON-RPC message.
unfoldable pub check_jsonrpc : Env → List ℕ → Tank → Option (Bool × Tank × List Event)
unfolding check_loop
check_jsonrpc env res2 t = do
  let start : Check = record { result = true; error = false; call_map = t.call_map; events = [] }
  c ← check_loop env (suc (length res2)) (env.parse (some res2) false) start
  let t1 = record t { call_map = c.call_map }
  some (
    c.result && not c.error,
    t1,
    if c.result && c.error then c.events ++ error ∷ [] else c.events,
  )

-- The check of another message, against the front of the queue.
unfoldable pub check_queue : List ℕ → Tank → Bool × Tank × List Event
check_queue res2 t = elim t.io_queue [
  | [] ↦ (true, t, [])
  | res1 ∷ rest ↦ (
    bytes_eq res1 res2,
    record t { io_queue = rest },
    if bytes_eq res1 res2 then [] else error ∷ [],
  )
]

abbrev show_response : TankOptions → List ℕ → List Event
show_response opt res2 = if opt.show_response then message res2 ∷ [] else []

unfoldable pub check_response :
    Env → TankOptions → List ℕ → Tank → Option (Bool × Tank × List Event)
unfolding check_jsonrpc check_queue
check_response env opt res2 t =
    if not opt.check_response then some (true, t, show_response opt res2) else do
      (result, t1, es) ← elim (method_of opt.jsonrpc_method) [
        | none ↦ some (check_queue res2 t)
        | some m ↦ check_jsonrpc env res2 t
      ]
      some (result, t1, show_response opt res2 ++ es)

abbrev size : Option (List ℕ) → ℕ
size none = 0
size (some d) = length d

-- What is left after a response is shorter.
abbrev pub Shrinks : Env → Type 0
Shrinks env = (d r : List ℕ) (e : Bool) → (env.parse (some d) e).rest ≡ some r → length r < length d

rest_shorter :
    (env : Env) (o : Option (List ℕ)) (e : Bool) (d : List ℕ) (fuel : ℕ)
    → Shrinks env
    → ((e : Bool) → (env.parse none e).rest ≡ none)
    → (env.parse o e).rest ≡ some d
    → size o < suc fuel
    → length d < fuel
rest_shorter env none e d fuel shrinks ends left enough = ground (arith, ends e)
rest_shorter env (some r) e d fuel shrinks ends left enough = omega (arith, shrinks r d e left)

check_loop_total :
    (env : Env) (fuel : ℕ) (p : Parsed) (c : Check)
    → Shrinks env
    → ((e : Bool) → (env.parse none e).rest ≡ none)
    → size p.rest < fuel
    → (c2 : Check) × (check_loop env fuel p c ≡ some c2)
unfolding check_loop
check_loop_total env zero p c shrinks ends enough =
    let impossible : ⊥ = omega arith in absurd impossible
check_loop_total env (suc fuel) p c shrinks ends enough =
    let c1 = check_one p.holder c in
    let p1 = env.parse p.rest c1.error in
    elim (Bool-cases p.error) [
      | inl bad ↦ (record c { error = true }, ground (arith, bad))
      | inr fine ↦ elim (Option-cases p1.rest) [
        | inl done ↦ (record c1 { error = p1.error }, ground (arith, fine, done))
        | inr (d, more) ↦
            let shorter = rest_shorter env p.rest c1.error d fuel shrinks ends more enough in
            let small : size p1.rest < fuel = rw more shorter in
            let (c2, e) = check_loop_total env fuel p1 c1 shrinks ends small in
            (c2, ground (arith, fine, more, e))
      ]
    ]

parsed_small :
    (env : Env) (res2 : List ℕ)
    → Shrinks env
    → size (env.parse (some res2) false).rest < suc (length res2)
parsed_small env res2 shrinks = elim (Option-cases (env.parse (some res2) false).rest) [
  | inl done ↦ rw done (omega arith)
  | inr (d, more) ↦ rw more (omega (arith, shrinks res2 d false more))
]

-- The check of a response ends, whatever it is, if what the parser leaves of a message is shorter
-- than the message and the parser leaves nothing of no data.
pub check_response_total :
    (env : Env) (opt : TankOptions) (res2 : List ℕ) (t : Tank)
    → Shrinks env
    → ((e : Bool) → (env.parse none e).rest ≡ none)
    → (r : Bool × Tank × List Event) × (check_response env opt res2 t ≡ some r)
unfolding check_response check_jsonrpc
check_response_total env opt res2 t shrinks ends =
    let start : Check = record {
      result = true;
      error = false;
      call_map = t.call_map;
      events = [];
    } in
    let (c, e) =
      check_loop_total env (suc (length res2)) (env.parse (some res2) false) start shrinks ends
        (parsed_small env res2 shrinks) in
    let checked : Bool × Tank × List Event = elim (method_of opt.jsonrpc_method) [
      | none ↦ check_queue res2 t
      | some m ↦ (
        c.result && not c.error,
        record t { call_map = c.call_map },
        if c.result && c.error then c.events ++ error ∷ [] else c.events,
      )
    ] in
    (
      (if not opt.check_response
          then (true, t, show_response opt res2)
          else (checked.0, checked.1, show_response opt res2 ++ checked.2)),
      ground (arith, e),
    )

pub bytes_eq_iff : (xs ys : List ℕ) → (bytes_eq xs ys ≡ true) ↔ (xs ≡ ys)
bytes_eq_iff [] [] = ground arith
bytes_eq_iff [] (y ∷ ys) = ground arith
bytes_eq_iff (x ∷ xs) [] = ground arith
bytes_eq_iff (x ∷ xs) (y ∷ ys) = ground (arith, bytes_eq_iff xs ys)
