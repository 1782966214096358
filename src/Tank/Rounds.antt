-- ===== src/Tank/Rounds.antt =====
-- The variables of requests of tank_io.cpp: which numbers a request gets after others.
use native.Mathlib.Nat.{suc-mul, mod-add-mod, mod-eq_of_lt}
use wfc_io.Prelude.{
  ℕ, suc, ◌+◌, ◌*◌, ◌%◌, ◌≡◌, refl, ap, ◌∙◌, true, false, some, List, [], ◌∷◌, ◌++◌, arith,
  if◌then◌else◌, String, length,
}
use wfc_io.Prelude.Int.{ℤ, pos, ◌+ℤ◌}
use wfc_io.Tank.{TankOptions, Env, Event, Tank, lookup_counter, expect, next_all, make_request}
use wfc_io.Tank.Counters.{Counter}
use wfc_io.Tank.Counting.{Counts}
use wfc_io.Tank.Pending.{make_all}
use wfc_io.Tank.Numbers.{numbers, substitute_vars}
use wfc_io.Tank.Moving.{AllCount, Stands, next_all-AllCount}

-- The object after a request with variables, whose counters have gone one step on.
abbrev after : Env → TankOptions → List ℕ → List ℕ → List (String × Counter) → Tank → Tank
after env opt req res ds t = record (expect env opt req res t).0 {
  initial_make = false;
  counters = ds;
}

expect_lem :
    (env : Env) (opt : TankOptions) (req res : List ℕ) (t : Tank)
    → ((expect env opt req res t).0.initial_make ≡ t.initial_make)
      × ((expect env opt req res t).0.counters ≡ t.counters)
unfolding expect
expect_lem env opt req res t = ground arith

make_request_vars :
    (env : Env) (opt : TankOptions) (req res : List ℕ) (t : Tank) (ds : List (String × Counter))
    → opt.enable_vars ≡ true
    → t.initial_make ≡ false
    → next_all t.counters ≡ some ds
    → let (t1, text) = expect env opt req res t in
      (es : List Event) × (make_request env opt req res t
        ≡ some (
          after env opt req res ds t,
          env.replace_vars text (numbers t1.call_id ds (env.search_vars text)),
          es,
        ))
unfolding make_request
make_request_vars env opt req res t ds vars later moved =
    let (t1, text) = expect env opt req res t in
    let (same, kept) = expect_lem env opt req res t in
    let (es, e) =
      substitute_vars env opt text t1 ds vars (same ∙ later) (ap next_all kept ∙ moved) in
    let made = env.replace_vars text (numbers t1.call_id ds (env.search_vars text)) in
    (es ++ (if opt.show_request then Event.message made ∷ [] else []), rw e)

-- An object after its first request, whose counters count.
record Goes (name : String) (n s k : ℕ) (from : ℤ) (t : Tank) : Type 0 where
  later : t.initial_make ≡ false
  all : AllCount t.counters
  stands : Stands name n s k from t.counters

request-Goes :
    (env : Env) (opt : TankOptions) (req res : List ℕ) (name : String) (n s k : ℕ) (from : ℤ)
    (t : Tank)
    → opt.enable_vars ≡ true
    → Goes name n s k from t
    → (t1 : Tank) × (es : List Event) × (make_request env opt req res t
        ≡ some (
          t1,
          (let text = (expect env opt req res t).1 in
              env.replace_vars text (numbers t1.call_id t1.counters (env.search_vars text))),
          es,
        ))
      × Goes name n s ((k + s) % n) from t1
request-Goes env opt req res name n s k from t vars g =
    let (ds, moved, all, follows) = next_all-AllCount t.counters g.all in
    let (es, e) = make_request_vars env opt req res t ds vars g.later moved in
    (
      after env opt req res ds t,
      es,
      e,
      record { later = refl; all = all; stands = follows name n s k from g.stands },
    )

make_all-Goes :
    (env : Env) (opt : TankOptions) (reqs : List (List ℕ × List ℕ)) (name : String) (n s k : ℕ)
    (from : ℤ) (t : Tank)
    → opt.enable_vars ≡ true
    → Goes name n s k from t
    → (t1 : Tank) × (make_all env opt reqs t ≡ some t1)
      × Goes name n s ((k + length reqs * s) % n) from t1
unfolding make_all
make_all-Goes env opt [] name n s k from t vars g =
    let here : (k + 0 * s) % n ≡ k =
      ap (λ x. x % n) (omega arith) ∙ mod-eq_of_lt g.stands.counts.inside in
    (t, refl, rw here g)
make_all-Goes env opt ((req, res) ∷ reqs) name n s k from t vars g =
    let (t1, es, e, h) = request-Goes env opt req res name n s k from t vars g in
    let (t2, f, i) = make_all-Goes env opt reqs name n s ((k + s) % n) from t1 vars h in
    let same : ((k + s) % n + length reqs * s) % n ≡ (k + suc (length reqs) * s) % n =
      mod-add-mod (k + s) n (length reqs * s)
      ∙ ap (λ x. x % n) (omega (arith, suc-mul (length reqs) s)) in
    (t2, rw e f, rw⁻¹ same i)

-- Requests with variables go round the numbers of their counters: with variables on, and an object
-- that has made its first request and all of whose counters count, any number of requests and then
-- one more return, and no counter overflows. In the last request the variables are replaced by the
-- identifier of its call and by where the counters then stand: one that stood at the k-th of its n
-- numbers, in steps of s, has gone s further with each request, as arithmetic modulo n says.
pub counted_requests :
    (env : Env) (opt : TankOptions) (reqs : List (List ℕ × List ℕ)) (req res : List ℕ)
    (name : String) (n s k : ℕ) (c : Counter) (t : Tank)
    → opt.enable_vars ≡ true
    → t.initial_make ≡ false
    → AllCount t.counters
    → lookup_counter name t.counters ≡ some c
    → Counts n s k c
    → (t1 t2 : Tank) × (es : List Event) × (d : Counter) × (make_all env opt reqs t ≡ some t1)
      × (make_request env opt req res t1
          ≡ some (
            t2,
            (let text = (expect env opt req res t1).1 in
                env.replace_vars text (numbers t2.call_id t2.counters (env.search_vars text))),
            es,
          ))
      × (lookup_counter name t2.counters ≡ some d)
      × (d.current ≡ c.from +ℤ pos ((k + suc (length reqs) * s) % n))
counted_requests env opt reqs req res name n s k c t vars later all found counts =
    let g : Goes name n s k c.from t = record {
      later = later;
      all = all;
      stands = record { counter = c; found = found; counts = counts; begins = refl };
    } in
    let (t1, e, h) = make_all-Goes env opt reqs name n s k c.from t vars g in
    let j = (k + length reqs * s) % n in
    let (t2, es, f, i) = request-Goes env opt req res name n s j c.from t1 vars h in
    let d = i.stands.counter in
    let modular : (j + s) % n ≡ (k + suc (length reqs) * s) % n =
      mod-add-mod (k + length reqs * s) n s
      ∙ ap (λ x. x % n) (omega (arith, suc-mul (length reqs) s)) in
    (
      t1,
      t2,
      es,
      d,
      e,
      f,
      i.stands.found,
      i.stands.counts.current
          ∙ ap (λ x. x +ℤ pos ((j + s) % n)) i.stands.begins
          ∙ ap (λ x. c.from +ℤ pos x) modular,
    )
