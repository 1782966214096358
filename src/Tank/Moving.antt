-- ===== src/Tank/Moving.antt =====
-- The class __counter of tank_io.hpp in the map of a tank_io: how all counters move on.
use text.Mathlib.Text.{◌==◌ as str_eq}
use wfc_io.Prelude.{
  ℕ, ◌+◌, ◌%◌, ◌≡◌, refl, some, List, [], ◌∷◌, arith, String, Bool-cases, inl, inr,
}
use wfc_io.Prelude.Int.{ℤ}
use wfc_io.Tank.{lookup_counter, next_all}
use wfc_io.Tank.Counters.{Counter}
use wfc_io.Tank.Counting.{Counts, turned, next-turned}

-- All counters count.
pub data AllCount : List (String × Counter) → Type 0 where
  nil : AllCount []
  cons :
      {name : String} {c : Counter} {cs : List (String × Counter)} {n s k : ℕ}
      → Counts n s k c
      → AllCount cs
      → AllCount ((name, c) ∷ cs)

-- A counter of that name stands at the k-th of its n numbers.
pub record Stands (name : String) (n s k : ℕ) (from : ℤ) (cs : List (String × Counter))
    : Type 0 where
  pub counter : Counter
  pub found : lookup_counter name cs ≡ some counter
  pub counts : Counts n s k counter
  pub begins : counter.from ≡ from

pub next_all-AllCount :
    (cs : List (String × Counter))
    → AllCount cs
    → (ds : List (String × Counter)) × (next_all cs ≡ some ds)
      × AllCount ds
      × ((name : String) (n s k : ℕ) (from : ℤ)
          → Stands name n s k from cs
          → Stands name n s ((k + s) % n) from ds)
unfolding next_all
next_all-AllCount [] nil = ([], refl, nil, λ name n s k from h. cc (h.found))
next_all-AllCount ((name, c) ∷ cs) (cons {n} {s} {k} v vs) =
    let (ds, e, ws, follows) = next_all-AllCount cs vs in
    let (f, w) = next-turned n s k c v in
    (
      (name, turned n s k c) ∷ ds,
      rw (next_all, f) (rw e),
      cons w ws,
      λ other n2 s2 k2 from h. elim (Bool-cases (str_eq other name)) [
        | inl own ↦
            let e2 : c ≡ h.counter = ground (arith, h.found, own) in
            let (f2, w2) = next-turned n2 s2 k2 h.counter h.counts in
            let f3 : some (turned n s k c) ≡ some (turned n2 s2 k2 h.counter) = cc in
            record {
              counter = turned n2 s2 k2 h.counter;
              found = ground (arith, own, f3);
              counts = w2;
              begins = h.begins;
            }
        | inr different ↦
            let there = follows other n2 s2 k2 from (record {
              counter = h.counter;
              found = ground (arith, different, h.found);
              counts = h.counts;
              begins = h.begins;
            }) in
            record {
              counter = there.counter;
              found = ground (arith, different, there.found);
              counts = there.counts;
              begins = there.begins;
            }
      ],
    )
