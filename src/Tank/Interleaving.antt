-- ===== src/Tank/Interleaving.antt =====
-- Requests and responses of tank_io.cpp in any order: the calls of a load generator and the answers
-- that come in between.
use wfc_io.Prelude.{
  ℕ, ◌≡◌, refl, ap, Bool, true, false, Option, none, some, List, [], ◌∷◌, ◌==◌, if◌then◌else◌,
  String, arith, Option-cases, inl, inr,
}
use wfc_io.Prelude.Options.{◌>>=◌}
use wfc_io.Prelude.Dict.{
  lookup, insert, erase, From, lookup-insert, lookup-erase, insert-From, erase-From,
}
use wfc_io.Tank.{TankOptions, Env, Event, Tank, method_of, next_id, make_request}
use wfc_io.Tank.Check.{bytes_eq, check_response}
use wfc_io.Tank.Calls.{response, make_request_call, check_response_one}

-- A request with the result that it expects, or a message that comes in, as the parser reads it:
-- the response to the call `id` with the result `r`.
pub data Action : Type 0 where
  requests : (req res : List ℕ) → Action
  responds : (msg : List ℕ) (id : ℕ) (r : List ℕ) → Action

-- What the checks return, in their order.
unfoldable pub run_all : Env → TankOptions → List Action → Tank → Option (List Bool × Tank)
run_all env opt [] t = some ([], t)
run_all env opt (requests req res ∷ acts) t = do
  (t1, made, es) ← make_request env opt req res t
  run_all env opt acts t1
run_all env opt (responds msg id r ∷ acts) t = do
  (good, t1, es) ← check_response env opt msg t
  (goods, t2) ← run_all env opt acts t1
  some (good ∷ goods, t2)

-- The calls that wait, by their identifiers, as a function.
abbrev pub Pending : Type 0
Pending = ℕ → Option (List ℕ)

abbrev pub expected : List ℕ → Option (List ℕ) → Bool
expected r none = false
expected r (some res) = bytes_eq res r

-- A response is good if its call waits for this result; the call does not wait any longer. `n` is
-- the last identifier.
unfoldable pub verdicts : List Action → ℕ → Pending → List Bool
verdicts [] n p = []
verdicts (requests req res ∷ acts) n p =
    verdicts acts (next_id n) (λ k. if next_id n == k then some res else p k)
verdicts (responds msg id r ∷ acts) n p =
    expected r (p id) ∷ verdicts acts n (λ k. if id == k then none else p k)

abbrev pub Readable : Env → List Action → Type 0
Readable env [] = Unit
Readable env (requests req res ∷ acts) = Readable env acts
Readable env (responds msg id r ∷ acts) =
    (env.parse (some msg) false ≡ response id r) × Readable env acts

-- The object holds what waits.
record Holds (p : Pending) (t : Tank) : Type 0 where
  same : (k : ℕ) → lookup k t.call_map ≡ p k
  sorted : From 0 t.call_map

module _ (env : Env) (opt : TankOptions) (method : String)
    (call : method_of opt.jsonrpc_method ≡ some method) (no_vars : opt.enable_vars ≡ false)
    (checks : opt.check_response ≡ true) (ends : (env.parse none false).rest ≡ none)
    (fine : (env.parse none false).error ≡ false) where
  -- The check of one message.
  responds-Holds :
      (msg : List ℕ) (id : ℕ) (r : List ℕ) (p : Pending) (t : Tank)
      → env.parse (some msg) false ≡ response id r
      → Holds p t
      → (t1 : Tank) × (es : List Event) × (check_response env opt msg t
          ≡ some (expected r (p id), t1, es))
        × (t1.call_id ≡ t.call_id)
        × Holds (λ k. if id == k then none else p k) t1
  responds-Holds msg id r p t parsed h =
      let (es, e) = check_response_one env opt method id r msg t call checks parsed ends fine in
      elim (Option-cases (p id)) [
        | inl unknown ↦ (
          t,
          es,
          ground (arith, e, h.same id, unknown),
          refl,
          record { same = λ k. ground (arith, h.same k, unknown); sorted = h.sorted },
        )
        | inr (res, waits) ↦ (
          record t { call_map = erase id t.call_map },
          es,
          ground (arith, e, h.same id, waits),
          refl,
          record {
            same = λ k. ground (arith, lookup-erase id k 0 t.call_map h.sorted, h.same k);
            sorted = erase-From id 0 t.call_map h.sorted;
          },
        )
      ]

  run_all-Holds :
      (acts : List Action) (p : Pending) (t : Tank)
      → Readable env acts
      → Holds p t
      → (t1 : Tank) × (run_all env opt acts t ≡ some (verdicts acts t.call_id p, t1))
  unfolding run_all verdicts
  run_all-Holds [] p t k h = (t, refl)
  run_all-Holds (requests req res ∷ acts) p t k h =
      let (made, es, e) = make_request_call env opt method req res t call no_vars in
      let id = next_id t.call_id in
      let t1 = record t {
        initial_make = false;
        call_id = id;
        call_map = insert id res t.call_map;
      } in
      let h1 : Holds (λ j. if id == j then some res else p j) t1 = record {
        same = λ j. ground (arith, lookup-insert id j res t.call_map, h.same j);
        sorted = insert-From id 0 res t.call_map (omega arith) h.sorted;
      } in
      let (t2, f) = run_all-Holds acts (λ j. if id == j then some res else p j) t1 k h1 in
      (t2, rw e f)
  run_all-Holds (responds msg id r ∷ acts) p t k h =
      let (t1, es, e, last, h1) = responds-Holds msg id r p t k.0 h in
      let (t2, f) = run_all-Holds acts (λ j. if id == j then none else p j) t1 k.1 h1 in
      (
        t2,
        rw e (
            rw f (
              ap
                (λ n.
                  some
                    (expected r (p id) ∷ verdicts acts n (λ j. if id == j then none else p j), t2))
                last)),
      )

  -- The calls that wait are a table: with JSON-RPC, without variables and with the check on, for an
  -- object whose pending results are in the order of their identifiers, and a parser that reads
  -- each message as one response with nothing after it and no error, requests and responses in any
  -- order do not fail, and what the checks return is what a table of the calls that wait says: a
  -- response is good if its call waits and the result is the one that the call expects, and then
  -- the call waits no longer; a request makes a call wait under the next identifier, in place of
  -- one that waits under it already.
  pub interleaved_checked :
      (acts : List Action) (t : Tank)
      → Readable env acts
      → From 0 t.call_map
      → (t1 : Tank) × (run_all env opt acts t
          ≡ some (verdicts acts t.call_id (λ k. lookup k t.call_map), t1))
  interleaved_checked acts t k sorted =
      run_all-Holds acts (λ j. lookup j t.call_map) t k
        (record { same = λ j. refl; sorted = sorted })
