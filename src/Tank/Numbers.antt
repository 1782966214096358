-- ===== src/Tank/Numbers.antt =====
-- The variables of requests of tank_io.cpp: which numbers stand for those of a text.
use mathlib.Core.List.{append-nil, append_assoc}
use text.Mathlib.Text.{◌==◌ as str_eq, starts_with}
use wfc_io.Prelude.{
  ℕ, ◌≡◌, refl, sym, ap, ◌∙◌, true, false, not, none, some, List, [], ◌∷◌, ◌++◌, arith,
  if◌then◌else◌, String,
}
use wfc_io.Tank.{
  TankOptions, Variable, Replacement, Env, Event, Tank, Replaced, as_int, lookup_counter, next_all,
  replace_one, replace_all, substitute,
}
use wfc_io.Tank.Counters.{Counter}

-- The number for a variable of a text, if it is one of TANK that has a number: the identifier of
-- the call, or a counter.
number : ℕ → List (String × Counter) → Variable → List Replacement
number id cs cv =
    if not (str_eq cv.prefix "TANK")
    then []
    else if str_eq cv.name "ID"
    then record { name = "ID"; value = as_int id } ∷ []
    else if starts_with cv.name "COUNT"
    then elim (lookup_counter cv.name cs) [
      | none ↦ []
      | some c ↦ record { name = cv.name; value = c.current } ∷ []
    ]
    else []

-- Those for all variables, in their order.
pub numbers : ℕ → List (String × Counter) → List Variable → List Replacement
unfolding number
numbers id cs [] = []
numbers id cs (cv ∷ cvs) = number id cs cv ++ numbers id cs cvs

replace_one_lem :
    (id : ℕ) (cv : Variable) (r : Replaced)
    → let q = replace_one false id cv r in
      (q.counters ≡ r.counters) × (q.replacements ≡ r.replacements ++ number id r.counters cv)
unfolding replace_one number
replace_one_lem id cv r = ground (arith, append-nil r.replacements)

-- After the first request the variables make no counter.
replace_all_lem :
    (id : ℕ) (cvs : List Variable) (r : Replaced)
    → let q = replace_all false id cvs r in
      (q.counters ≡ r.counters) × (q.replacements ≡ r.replacements ++ numbers id r.counters cvs)
unfolding replace_all numbers
replace_all_lem id [] r = (refl, sym (append-nil r.replacements))
replace_all_lem id (cv ∷ cvs) r =
    let q = replace_one false id cv r in
    let (a, b) = replace_one_lem id cv r in
    let (c, d) = replace_all_lem id cvs q in
    (
      c ∙ a,
      d
          ∙ ap (λ cs. q.replacements ++ numbers id cs cvs) a
          ∙ ap (λ rs. rs ++ numbers id r.counters cvs) b
          ∙ append_assoc r.replacements (number id r.counters cv) (numbers id r.counters cvs),
    )

pub substitute_vars :
    (env : Env) (opt : TankOptions) (req : List ℕ) (t : Tank) (ds : List (String × Counter))
    → opt.enable_vars ≡ true
    → t.initial_make ≡ false
    → next_all t.counters ≡ some ds
    → (es : List Event) × (substitute env opt req t
        ≡ some (
          record t { counters = ds },
          env.replace_vars req (numbers t.call_id ds (env.search_vars req)),
          es,
        ))
unfolding substitute
substitute_vars env opt req t ds vars later moved =
    let start : Replaced = record { counters = ds; replacements = []; events = [] } in
    let q = replace_all false t.call_id (env.search_vars req) start in
    let (a, b) = replace_all_lem t.call_id (env.search_vars req) start in
    (q.events, ground (arith, vars, later, moved, a, b))
