-- ===== src/Tank/Calls.antt =====
-- JSON-RPC requests and the responses to them.
use wfc_io.Prelude.{
  ℕ, suc, ◌+◌, ◌-◌, ◌^◌, ◌%◌, ◌<◌, ◌≡◌, refl, ◌≢◌, true, false, none, some, List, [], ◌∷◌, ◌++◌,
  String, if◌then◌else◌, length, arith,
}
use wfc_io.Prelude.Dict.{lookup, insert, erase, lookup-insert, lookup-erase, From, insert-From}
use wfc_io.Tank.{
  TankOptions, Holder, Parsed, Env, Event, Tank, method_of, next_id, expect, substitute,
  make_request,
}
use wfc_io.Tank.Check.{
  bytes_eq, check_one, check_loop, check_jsonrpc, compare_result, check_response,
}
use wfc_io.Tank.Pending.{make_all}

pub make_request_call :
    (env : Env) (opt : TankOptions) (method : String) (req res : List ℕ) (t : Tank)
    → method_of opt.jsonrpc_method ≡ some method
    → opt.enable_vars ≡ false
    → let id = next_id t.call_id in
      (made : List ℕ) × (es : List Event) × (make_request env opt req res t
        ≡ some (
          record t { initial_make = false; call_id = id; call_map = insert id res t.call_map },
          made,
          es,
        ))
unfolding make_request expect substitute
make_request_call env opt method req res t call no_vars =
    let made = env.serialize method req (next_id t.call_id) in
    (
      made,
      [] ++ (if opt.show_request then Event.message made ∷ [] else []),
      ground (arith, call, no_vars),
    )

-- Fewer than 2 ^ 32 calls away from a call, its result is still the one that is kept for it.
record Keeps (id : ℕ) (res : List ℕ) (j : ℕ) (t : Tank) : Type 0 where
  last : t.call_id ≡ (id + j) % 2 ^ 32
  kept : lookup id t.call_map ≡ some res
  sorted : From 0 t.call_map

other_id : (id j n : ℕ) → id < 2 ^ 32 → n ≡ (id + j) % 2 ^ 32 → suc j < 2 ^ 32 → next_id n ≢ id
other_id id j n small e near = omega arith

later_id : (id j n : ℕ) → n ≡ (id + j) % 2 ^ 32 → next_id n ≡ (id + suc j) % 2 ^ 32
later_id id j n e = omega arith

make_all-Keeps :
    (env : Env) (opt : TankOptions) (method : String) (id j : ℕ) (res : List ℕ)
    (reqs : List (List ℕ × List ℕ)) (t : Tank)
    → method_of opt.jsonrpc_method ≡ some method
    → opt.enable_vars ≡ false
    → id < 2 ^ 32
    → j + length reqs < 2 ^ 32
    → Keeps id res j t
    → (t1 : Tank) × (make_all env opt reqs t ≡ some t1) × Keeps id res (j + length reqs) t1
unfolding make_all
make_all-Keeps env opt method id j res [] t call no_vars small near k =
    (t, refl, record { last = ground (arith, k.last); kept = k.kept; sorted = k.sorted })
make_all-Keeps env opt method id j res ((req, other) ∷ rest) t call no_vars small near k =
    let (made, es, e) = make_request_call env opt method req other t call no_vars in
    let id2 = next_id t.call_id in
    let next = record t {
      initial_make = false;
      call_id = id2;
      call_map = insert id2 other t.call_map;
    } in
    let k2 : Keeps id res (suc j) next = record {
      last = later_id id j t.call_id k.last;
      kept = ground (
        arith,
        lookup-insert id2 id other t.call_map,
        other_id id j t.call_id small k.last (omega arith),
        k.kept,
      );
      sorted = insert-From id2 0 other t.call_map (omega arith) k.sorted;
    } in
    let (t1, f, k3) =
      make_all-Keeps env opt method id (suc j) res rest next call no_vars small (omega arith) k2 in
    (
      t1,
      rw (make_all, e) f,
      record { last = ground (arith, k3.last); kept = k3.kept; sorted = k3.sorted },
    )

-- A message with one response and nothing after it.
abbrev pub response : ℕ → List ℕ → Parsed
response id r = record {
  holder = record { is_response = true; get_id = some id; get_result = some (some r) };
  rest = none;
  error = false;
}

-- What the check of such a message comes to.
pub check_response_one :
    (env : Env) (opt : TankOptions) (method : String) (id : ℕ) (r msg : List ℕ) (t : Tank)
    → method_of opt.jsonrpc_method ≡ some method
    → opt.check_response ≡ true
    → env.parse (some msg) false ≡ response id r
    → (env.parse none false).rest ≡ none
    → (env.parse none false).error ≡ false
    → (es : List Event) × (check_response env opt msg t
        ≡ some (elim (lookup id t.call_map) [
          | none ↦ (false, t, es)
          | some res ↦ (bytes_eq res r, record t { call_map = erase id t.call_map }, es)
        ]))
unfolding check_response check_jsonrpc check_loop check_one compare_result
check_response_one env opt method id r msg t call checks parsed ends fine =
    let shown : List Event = if opt.show_response then Event.message msg ∷ [] else [] in
    (
      shown ++ elim (lookup id t.call_map) [
        | none ↦ [] ++ Event.error ∷ []
        | some res ↦ if bytes_eq res r then [] else [] ++ Event.error ∷ []
      ],
      ground (arith, call, checks, parsed, ends, fine),
    )

-- With JSON-RPC, without variables and with the check on: after a request, and fewer than 2 ^ 32 -
-- 1 more, to an object whose pending results are in the order of their identifiers, the check of a
-- message that the parser reads as one response to the first request, with nothing after it and no
-- error, returns whether the response brings the result that this request expects, whatever the
-- others expect. The identifier is then forgotten: the same message is refused if it comes again.
pub call_checked :
    (env : Env) (opt : TankOptions) (method : String) (req res r msg : List ℕ)
    (reqs : List (List ℕ × List ℕ)) (t : Tank)
    → method_of opt.jsonrpc_method ≡ some method
    → opt.enable_vars ≡ false
    → opt.check_response ≡ true
    → From 0 t.call_map
    → length reqs < 2 ^ 32 - 1
    → env.parse (some msg) false ≡ response (next_id t.call_id) r
    → (env.parse none false).rest ≡ none
    → (env.parse none false).error ≡ false
    → (t1 t2 t3 : Tank) × (es fs : List Event) × (make_all env opt ((req, res) ∷ reqs) t ≡ some t1)
      × (check_response env opt msg t1 ≡ some (bytes_eq res r, t2, es))
      × (check_response env opt msg t2 ≡ some (false, t3, fs))
unfolding make_all
call_checked env opt method req res r msg reqs t call no_vars checks sorted few parsed ends fine =
    let (made, es, e) = make_request_call env opt method req res t call no_vars in
    let id = next_id t.call_id in
    let first = record t {
      initial_make = false;
      call_id = id;
      call_map = insert id res t.call_map;
    } in
    let k : Keeps id res 0 first = record {
      last = omega arith;
      kept = ground (arith, lookup-insert id id res t.call_map);
      sorted = insert-From id 0 res t.call_map (omega arith) sorted;
    } in
    let (t1, f, k1) =
      make_all-Keeps env opt method id 0 res reqs first call no_vars (omega arith) (omega arith)
        k in
    let t2 = record t1 { call_map = erase id t1.call_map } in
    let (gs, g) = check_response_one env opt method id r msg t1 call checks parsed ends fine in
    let (hs, h) = check_response_one env opt method id r msg t2 call checks parsed ends fine in
    let gone = lookup-erase id id 0 t1.call_map k1.sorted in
    (t1, t2, t2, gs, hs, rw (make_all, e) f, ground (arith, g, k1.kept), ground (arith, h, gone))

-- With JSON-RPC and the check on, a message with two responses, the first to a call that is
-- pending: if the parser hands out what follows the first response and nothing after the second,
-- without an error, the check compares the first response alone. Whatever the second response is,
-- the result is the same, and no other call is forgotten.
pub last_unchecked :
    (env : Env) (opt : TankOptions) (method : String) (id : ℕ) (res r msg more : List ℕ)
    (second : Holder) (t : Tank)
    → method_of opt.jsonrpc_method ≡ some method
    → opt.check_response ≡ true
    → lookup id t.call_map ≡ some res
    → env.parse (some msg) false ≡ record (response id r) { rest = some more }
    → env.parse (some more) false ≡ record { holder = second; rest = none; error = false }
    → (es : List Event) × (check_response env opt msg t
        ≡ some (bytes_eq res r, record t { call_map = erase id t.call_map }, es))
unfolding check_response check_jsonrpc check_loop check_one compare_result
last_unchecked env opt method id res r msg more second t call checks pending one two =
    let shown : List Event = if opt.show_response then Event.message msg ∷ [] else [] in
    (
      shown ++ (if bytes_eq res r then [] else [] ++ Event.error ∷ []),
      ground (arith, call, checks, pending, one, two),
    )
