-- ===== src/Tank/Pending.antt =====
-- That a response is checked against the result of its own request.
use mathlib.Core.List.{append-nil, append_assoc}
use wfc_io.Prelude.{
  ℕ, ◌≡◌, refl, ◌∙◌, Bool, true, false, Option, none, some, List, [], ◌∷◌, ◌++◌, if◌then◌else◌,
  arith, ap,
}
use wfc_io.Prelude.Options.{◌>>=◌}
use wfc_io.Tank.{TankOptions, Env, Event, Tank, method_of, expect, substitute, make_request}
use wfc_io.Tank.Check.{bytes_eq, check_queue, check_response}

-- Requests one after the other, with the results that they expect; `none` if one fails.
unfoldable pub make_all : Env → TankOptions → List (List ℕ × List ℕ) → Tank → Option Tank
make_all env opt [] t = some t
make_all env opt ((req, res) ∷ rest) t = do
  (t1, made, es) ← make_request env opt req res t
  make_all env opt rest t1

-- Responses one after the other, with what the checks return.
pub check_all : Env → TankOptions → List (List ℕ) → Tank → Option (List Bool × Tank)
check_all env opt [] t = some ([], t)
check_all env opt (res ∷ rest) t = do
  (ok, t1, es) ← check_response env opt res t
  (oks, t2) ← check_all env opt rest t1
  some (ok ∷ oks, t2)

abbrev pub second : List (List ℕ × List ℕ) → List (List ℕ)
second [] = []
second ((req, res) ∷ rest) = res ∷ second rest

-- Each expected result with the response in the same place; responses beyond them pass.
abbrev pub same : List (List ℕ) → List (List ℕ) → List Bool
same xs [] = []
same [] (y ∷ ys) = true ∷ same [] ys
same (x ∷ xs) (y ∷ ys) = bytes_eq x y ∷ same xs ys

make_request_plain :
    (env : Env) (opt : TankOptions) (req res : List ℕ) (t : Tank)
    → method_of opt.jsonrpc_method ≡ none
    → opt.enable_vars ≡ false
    → (es : List Event) × (make_request env opt req res t
        ≡ some (record t { initial_make = false; io_queue = t.io_queue ++ res ∷ [] }, req, es))
unfolding make_request expect substitute
make_request_plain env opt req res t plain no_vars = (
  [] ++ (if opt.show_request then Event.message req ∷ [] else []),
  ground (arith, plain, no_vars),
)

make_all_queue :
    (env : Env) (opt : TankOptions) (reqs : List (List ℕ × List ℕ)) (t : Tank)
    → method_of opt.jsonrpc_method ≡ none
    → opt.enable_vars ≡ false
    → (t1 : Tank) × (make_all env opt reqs t ≡ some t1) × (t1.io_queue ≡ t.io_queue ++ second reqs)
unfolding make_all
make_all_queue env opt [] t plain no_vars = (t, refl, simp append-nil)
make_all_queue env opt ((req, res) ∷ rest) t plain no_vars =
    let (es, e) = make_request_plain env opt req res t plain no_vars in
    let made = record t { initial_make = false; io_queue = t.io_queue ++ res ∷ [] } in
    let (t1, f, q) = make_all_queue env opt rest made plain no_vars in
    (t1, rw (make_all, e) f, q ∙ simp append_assoc)

check_all_same :
    (env : Env) (opt : TankOptions) (rs q : List (List ℕ)) (t : Tank)
    → t.io_queue ≡ q
    → method_of opt.jsonrpc_method ≡ none
    → opt.check_response ≡ true
    → (t1 : Tank) × (check_all env opt rs t ≡ some (same q rs, t1))
unfolding check_all check_response check_queue
check_all_same env opt [] q t e plain checks = (t, refl)
check_all_same env opt (r ∷ rs) [] t e plain checks =
    let (t1, f) = check_all_same env opt rs [] t e plain checks in
    (t1, ground (arith, e, f, plain, checks))
check_all_same env opt (r ∷ rs) (x ∷ xs) t e plain checks =
    let popped = record t { io_queue = xs } in
    let (t1, f) = check_all_same env opt rs xs popped refl plain checks in
    (t1, ground (arith, e, f, plain, checks))

-- Without JSON-RPC, without variables and with the check on, requests are made and responses are
-- checked without failing, and each response is compared with the result that the request in the
-- same place expects, in the order of the requests, if nothing was pending before.
pub in_order :
    (env : Env) (opt : TankOptions) (reqs : List (List ℕ × List ℕ)) (rs : List (List ℕ)) (t : Tank)
    → method_of opt.jsonrpc_method ≡ none
    → opt.enable_vars ≡ false
    → opt.check_response ≡ true
    → t.io_queue ≡ []
    → (t1 t2 : Tank) × (make_all env opt reqs t ≡ some t1)
      × (check_all env opt rs t1 ≡ some (same (second reqs) rs, t2))
in_order env opt reqs rs t plain no_vars checks nothing =
    let (t1, e, q) = make_all_queue env opt reqs t plain no_vars in
    let (t2, f) =
      check_all_same env opt rs (second reqs) t1 (q ∙ ap (λ xs. xs ++ second reqs) nothing) plain
        checks in
    (t1, t2, e, f)
