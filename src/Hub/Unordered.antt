-- ===== src/Hub/Unordered.antt =====
-- hub.cpp walks an `unordered_map`, in an order that is not specified: what a message comes to, if
-- the order of the calls is forgotten.
use mathlib.Core.List.{Permᴰ}
use mathlib.Core.List.Permᴰ
use mathlib.Core.Quot
use mathlib.Core.Quot.{Quot, Quot-set}
use wfc_io.Prelude.{
  Bool-cases, inl, inr, arith, ℕ, ◌≡◌, refl, ap, sym, ◌∙◌, none, some, List, ◌∷◌, ◌++◌, ◌==◌,
  if◌then◌else◌,
}
use wfc_io.Prelude.Dict.{Dict}
use wfc_io.Iface.{DataPtr, WeakPtr, Alive, lock, Handler, Result, ok, fault, ◌>>=◌}
use wfc_io.Hub.{Hub, Event, copy_to, broadcast, to_target, perform_io}

-- The events of a call in any order.
abbrev pub Bag : Type 0
Bag = Quot {α = List Event} Permᴰ

abbrev pub forget : Result (List Event) → Result Bag
forget (ok es) = ok (Quot.mk es)
forget (fault f) = fault f

put : Event → Bag → Bag
put e = Quot.lift Quot-set (λ es. Quot.mk (e ∷ es)) (λ es fs p. Quot.sound (Permᴰ.cons refl p))

put_comm : (e f : Event) (b : Bag) → put e (put f b) ≡ put f (put e b)
unfolding put
put_comm e f = Quot.ind (λ b. Quot-set _ _) (λ es. Quot.sound (Permᴰ.swap refl refl))

-- What one source adds to a broadcast.
add : Alive → ℕ → DataPtr → ℕ → (ℕ × WeakPtr) → Result Bag → Result Bag
unfolding copy_to
add alive id d io_id (k, itf) r = if k == io_id then r else elim (lock alive itf) [
  | none ↦ r
  | some n ↦ do first ← copy_to id d n; b ← r; ok (put first b)
]

module _ (alive : Alive) (id : ℕ) (d : DataPtr) (io_id : ℕ) where
  abbrev outcome : Dict WeakPtr → Result Bag
  outcome m = forget (broadcast alive id d io_id m)

  outcome-cons :
      (x : ℕ × WeakPtr) (m : Dict WeakPtr) → outcome (x ∷ m) ≡ add alive id d io_id x (outcome m)
  unfolding broadcast add copy_to put
  outcome-cons x m = ground arith

  add_comm :
      (x y : ℕ × WeakPtr) (r : Result Bag)
      → add alive id d io_id x (add alive id d io_id y r)
        ≡ add alive id d io_id y (add alive id d io_id x r)
  unfolding add copy_to
  add_comm x y r = grind (arith, put_comm)

  outcome_swap : (x y : ℕ × WeakPtr) (m : Dict WeakPtr) → outcome (x ∷ y ∷ m) ≡ outcome (y ∷ x ∷ m)
  outcome_swap x y m =
      outcome-cons x (y ∷ m)
      ∙ ap (add alive id d io_id x) (outcome-cons y m)
      ∙ add_comm x y (outcome m)
      ∙ sym (ap (add alive id d io_id y) (outcome-cons x m))
      ∙ sym (outcome-cons y (x ∷ m))

  outcome-Permᴰ : {m l : Dict WeakPtr} → Permᴰ m l → outcome m ≡ outcome l
  outcome-Permᴰ Permᴰ.nil = refl
  outcome-Permᴰ (Permᴰ.cons {a = x} {b = y} {l₁ = m} {l₂ = l} e p) =
      outcome-cons x m
      ∙ ap (add alive id d io_id x) (outcome-Permᴰ p)
      ∙ ap (λ z. add alive id d io_id z (outcome l)) e
      ∙ sym (outcome-cons y l)
  outcome-Permᴰ (Permᴰ.swap {a = x} {b = y} {a' = v} {b' = w} {l = m} e f) =
      outcome_swap x y m ∙ ap (λ z. outcome (z ∷ x ∷ m)) f ∙ ap (λ z. outcome (v ∷ z ∷ m)) e
  outcome-Permᴰ (Permᴰ.trans p q) = outcome-Permᴰ p ∙ outcome-Permᴰ q

append_bag : List Event → Bag → Bag
append_bag ts =
    Quot.lift Quot-set (λ es. Quot.mk (es ++ ts)) (λ es fs p. Quot.sound (Permᴰ.append_right ts p))

abbrev finish : List Event → Result Bag → Result Bag
finish ts (ok b) = ok (append_bag ts b)
finish ts (fault f) = fault f

forget-finish :
    (r : Result (List Event)) (ts : List Event)
    → forget (do es ← r; ok (es ++ ts)) ≡ finish ts (forget r)
unfolding append_bag
forget-finish (ok es) ts = refl
forget-finish (fault f) ts = refl

-- The order in which the hub walks its sources does not matter: for the same sources in any other
-- order, a message, with data or without, comes to the same calls, but for their order, or to the
-- same fault.
pub any_order :
    (alive : Alive) (d : DataPtr) (io_id : ℕ) (handler : Handler) (h : Hub) (m : Dict WeakPtr)
    → Permᴰ h.sources m
    → forget (perform_io alive d io_id handler h)
      ≡ forget (perform_io alive d io_id handler (record h { sources = m }))
unfolding perform_io to_target
any_order alive d io_id handler h m p = elim (Bool-cases h.suspended) [
  | inl suspended ↦ rw suspended refl
  | inr active ↦
      let ts = to_target alive d io_id handler h in
      rw active (
        forget-finish (broadcast alive h.id d io_id h.sources) ts
        ∙ ap (finish ts) (outcome-Permᴰ alive h.id d io_id p)
        ∙ sym (forget-finish (broadcast alive h.id d io_id m) ts))
]
