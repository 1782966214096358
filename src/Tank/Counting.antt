-- ===== src/Tank/Counting.antt =====
-- How the counters of a tank-io count.
use mathlib.Core.Path.{subst}
use native.Mathlib.Nat.{suc-mul, mod-add-mod, mod-eq_of_lt, mod-lt, add-mod_right}
use wfc_io.Prelude.{
  ℕ, zero, suc, ◌+◌, ◌-◌, ◌*◌, ◌^◌, ◌%◌, ◌≤◌, ◌<◌, ◌≡◌, refl, sym, ◌∙◌, false, Option, some, arith,
  if◌then◌else◌, ap, inl, inr, ltb, Bool-cases,
}
use wfc_io.Prelude.Options.{◌>>=◌}
use wfc_io.Prelude.Int.{ℤ, pos, ◌+ℤ◌, ◌-ℤ◌, ltb_ℤ, int_laws, +ℤ_parts}
use wfc_io.Tank.Counters.{Counter, next, wrapped, to_long, long_max, long_min}

-- A counter over the n numbers from `from`, in steps of s, that stands at the k-th of them. All of
-- them are of type long, and so is n.
pub record Counts (n s k : ℕ) (c : Counter) : Type 0 where
  pub low : ltb_ℤ c.from long_min ≡ false
  pub high : ltb_ℤ long_max c.to ≡ false
  pub span : c.to ≡ c.from +ℤ pos n
  pub size : n < 2 ^ 63
  pub step : c.step ≡ pos s
  pub forward : 0 < s
  pub fits : s ≤ n
  pub current : c.current ≡ c.from +ℤ pos k
  pub inside : k < n

advance : ℕ → ℕ → ℕ → ℕ
advance n s k = if ltb (k + s) n then k + s else k + s - n

advance_mod : (n s k : ℕ) → k < n → s ≤ n → advance n s k ≡ (k + s) % n
unfolding advance
advance_mod n s k inside fits = elim (Bool-cases (ltb (k + s) n)) [
  | inl under ↦ rw (advance, under) (sym (mod-eq_of_lt (ground (arith, under))))
  | inr over ↦
      let less : k + s - n < n = ground (arith, over) in
      let whole : k + s - n + n ≡ k + s = ground (arith, over) in
      rw (advance, over)
        (sym (mod-eq_of_lt less) ∙ sym (add-mod_right (k + s - n) n) ∙ ap (λ x. x % n) whole)
]

-- Differences and sums of numbers that are counted from the same one.
between : (f : ℤ) (n k : ℕ) → k ≤ n → f +ℤ pos n -ℤ (f +ℤ pos k) ≡ pos (n - k)
between f n k h = omega int_laws

beyond : (f : ℤ) (k s : ℕ) → f +ℤ pos k +ℤ pos s ≡ f +ℤ pos (k + s)
beyond f k s = omega int_laws

back : (f : ℤ) (k s : ℕ) → s ≤ k → f +ℤ pos k -ℤ pos s ≡ f +ℤ pos (k - s)
back f k s h = omega int_laws

small_long : (n : ℕ) → n < 2 ^ 63 → to_long (pos n) ≡ some (pos n)
unfolding to_long
small_long n h = ground arith

within_long :
    (f : ℤ) (n k : ℕ)
    → ltb_ℤ f long_min ≡ false
    → ltb_ℤ long_max (f +ℤ pos n) ≡ false
    → k ≤ n
    → to_long (f +ℤ pos k) ≡ some (f +ℤ pos k)
unfolding to_long
within_long f n k low high h = ground (arith, +ℤ_parts f (pos n), +ℤ_parts f (pos k))

next-Counts :
    (n s k : ℕ) (c : Counter)
    → Counts n s k c
    → next c ≡ some (record c { current = c.from +ℤ pos (advance n s k) })
unfolding next wrapped advance
next-Counts n s k c v =
    let high : ltb_ℤ long_max (c.from +ℤ pos n) ≡ false =
      subst (λ x. ltb_ℤ long_max x ≡ false) v.span v.high in
    let left : to_long (c.to -ℤ c.current) ≡ some (pos (n - k)) =
      rw (v.span, v.current)
        (ap to_long (between c.from n k (omega (arith, v.inside)))
          ∙ small_long (n - k) (omega (arith, v.size))) in
    elim (Bool-cases (ltb (k + s) n)) [
      | inl under ↦
          let sum : to_long (c.current +ℤ c.step) ≡ some (c.from +ℤ pos (k + s)) =
            rw (v.step, v.current)
              (ap to_long (beyond c.from k s)
                ∙ within_long c.from n (k + s) v.low high (ground (arith, under))) in
          ground (arith, left, sum, under, v.step)
      | inr over ↦
          let sum : to_long (c.from +ℤ c.step) ≡ some (c.from +ℤ pos s) =
            rw v.step (within_long c.from n s v.low high v.fits) in
          let least : n - k ≤ s = ground (arith, over, v.inside) in
          let same : s - (n - k) ≡ k + s - n = ground (arith, over, v.inside) in
          let turned : to_long (c.from +ℤ pos s -ℤ pos (n - k)) ≡ some (c.from +ℤ pos (k + s - n)) =
            ap to_long (back c.from s (n - k) least ∙ ap (λ x. c.from +ℤ pos x) same)
            ∙ within_long c.from n (k + s - n) v.low high (omega (arith, v.inside, v.fits)) in
          ground (arith, left, sum, turned, over, v.step)
    ]

-- A step of a counter: to the number that is s further, round the n.
abbrev pub turned : ℕ → ℕ → ℕ → Counter → Counter
turned n s k c = record c { current = c.from +ℤ pos ((k + s) % n) }

pub next-turned :
    (n s k : ℕ) (c : Counter)
    → Counts n s k c
    → (next c ≡ some (turned n s k c)) × Counts n s ((k + s) % n) (turned n s k c)
next-turned n s k c v = (
  next-Counts n s k c v
      ∙ ap (λ j. some (record c { current = c.from +ℤ pos j })) (advance_mod n s k v.inside v.fits),
  record {
    low = v.low;
    high = v.high;
    span = v.span;
    size = v.size;
    step = v.step;
    forward = v.forward;
    fits = v.fits;
    current = refl;
    inside = mod-lt (k + s) (omega (arith, v.inside));
  },
)

-- `next`, i times.
pub nexts : ℕ → Counter → Option Counter
nexts zero c = some c
nexts (suc i) c = do d ← next c; nexts i d

-- A counter over the n numbers from `from` up to `to`, where these and n are of type long, in
-- positive steps of at most n, counts on for ever: after any number of steps it has not
-- overflowed, stands at one of the n numbers, and has gone round as arithmetic modulo n says.
pub nexts_lem :
    (n s k i : ℕ) (c : Counter)
    → Counts n s k c
    → (nexts i c ≡ some (record c { current = c.from +ℤ pos ((k + i * s) % n) }))
      × ((k + i * s) % n < n)
unfolding nexts
nexts_lem n s k zero c v =
    let here : (k + 0 * s) % n ≡ k = ap (λ x. x % n) (omega arith) ∙ mod-eq_of_lt v.inside in
    (rw here (ground (arith, v.current)), rw here v.inside)
nexts_lem n s k (suc i) c v =
    let (e, w) = next-turned n s k c v in
    let (ih, inside) = nexts_lem n s ((k + s) % n) i (turned n s k c) w in
    let same : ((k + s) % n + i * s) % n ≡ (k + suc i * s) % n =
      mod-add-mod (k + s) n (i * s) ∙ ap (λ x. x % n) (omega (arith, suc-mul i s)) in
    (rw (nexts, e) (rw⁻¹ same ih), rw⁻¹ same inside)
