-- ===== src/Prelude/Dict.antt =====
-- `std::map` with numeric keys, as an association list in the order of its keys.
use Prim.Native.Nat.{ℕ, suc, ◌+◌, ◌≤◌, ◌<◌}
use mathlib.Core.Path.{◌≡◌, refl}
use mathlib.Core.Option.{Option, none, some}
use mathlib.Core.List.{List, [], ◌∷◌}
use native.Mathlib.Omega.{arith}
use package.wfc_io.Prelude.Tests.{ltb, ◌==◌, if◌then◌else◌}
use package.wfc_io.Prelude.Lists.{is, count}

abbrev pub Dict {ℓ} : Type ℓ → Type ℓ
Dict V = List (ℕ × V)

abbrev pub values {ℓ} : {V : Type ℓ} → Dict V → List V
values [] = []
values ((k, v) ∷ m) = v ∷ values m

module _ {ℓ} {V : Type ℓ} where
  -- m.find(k)
  unfoldable pub lookup : ℕ → Dict V → Option V
  lookup k [] = none
  lookup k ((j, v) ∷ m) = if j == k then some v else lookup k m

  -- m[k] = v
  unfoldable pub insert : ℕ → V → Dict V → Dict V
  insert k v [] = (k, v) ∷ []
  insert k v ((j, w) ∷ m) =
      let rest = insert k v m in
      if k == j then (k, v) ∷ m else if ltb k j then (k, v) ∷ (j, w) ∷ m else (j, w) ∷ rest

  -- m.erase(k)
  unfoldable pub erase : ℕ → Dict V → Dict V
  erase k [] = []
  erase k ((j, v) ∷ m) = if j == k then m else (j, v) ∷ erase k m

  -- m.insert(make_pair(k, v)): a key that is there keeps its value.
  unfoldable pub emplace : ℕ → V → Dict V → Dict V
  unfolding lookup insert
  emplace k v m = elim (lookup k m) [ none ↦ insert k v m | some w ↦ m ]

  -- Every key is at least `n`, and they rise along the list.
  abbrev pub From : ℕ → Dict V → Type 0
  From n [] = Unit {0}
  From n ((j, v) ∷ m) = (n ≤ j) × From (suc j) m

  pub From-mono : (n l : ℕ) (m : Dict V) → n ≤ l → From l m → From n m
  From-mono n l [] h f = tt
  From-mono n l ((j, v) ∷ m) h f = (omega arith, f.1)

  pub lookup-below : (k n : ℕ) (m : Dict V) → k < n → From n m → lookup k m ≡ none
  unfolding lookup
  lookup-below k n [] h f = refl
  lookup-below k n ((j, v) ∷ m) h f = ground (arith, lookup-below k (suc j) m)

  pub lookup-insert :
      (key other : ℕ) (value : V) (m : Dict V)
      → lookup other (insert key value m) ≡ (if key == other then some value else lookup other m)
  unfolding lookup insert
  lookup-insert key other value [] = refl
  lookup-insert key other value ((first, old) ∷ rest) =
      ground (arith, lookup-insert key other value rest)

  pub insert-From : (k n : ℕ) (v : V) (m : Dict V) → n ≤ k → From n m → From n (insert k v m)
  unfolding insert
  insert-From k n v [] h f = (h, tt)
  insert-From k n v ((j, w) ∷ m) h f = ground (arith, insert-From k (suc j) v m)

  pub erase-From : (k n : ℕ) (m : Dict V) → From n m → From n (erase k m)
  unfolding erase
  erase-From k n [] f = tt
  erase-From k n ((j, v) ∷ m) f = ground (arith, erase-From k (suc j) m f.1, From-mono n (suc j) m)

  pub lookup-erase :
      (k j n : ℕ) (m : Dict V)
      → From n m
      → lookup j (erase k m) ≡ (if k == j then none else lookup j m)
  unfolding lookup erase
  lookup-erase k j n [] f = ground arith
  lookup-erase k j n ((i, w) ∷ m) f =
      ground (arith, lookup-erase k j (suc i) m f.1, lookup-below k (suc i) m)

-- A fresh key adds its value, and erasing a key takes its value away.
pub count-insert :
    (c k v : ℕ) (m : Dict ℕ)
    → lookup k m ≡ none
    → count c (values (insert k v m)) ≡ is c v + count c (values m)
unfolding lookup insert
count-insert c k v [] h = refl
count-insert c k v ((j, w) ∷ m) h = ground (arith, count-insert c k v m)

pub count-erase :
    (c k v : ℕ) (m : Dict ℕ)
    → lookup k m ≡ some v
    → is c v + count c (values (erase k m)) ≡ count c (values m)
unfolding lookup erase
count-erase c k v [] h = ground arith
count-erase c k v ((j, w) ∷ m) h = ground (arith, count-erase c k v m)

module _ {ℓ} {V : Type ℓ} where
  pub erase-below : (k n : ℕ) (m : Dict V) → k < n → From n m → erase k m ≡ m
  unfolding erase
  erase-below k n [] h f = refl
  erase-below k n ((j, v) ∷ m) h f = ground (arith, erase-below k (suc j) m)
