-- ===== src/Client/Map/Fill.antt =====
-- The loops of `client_tcp_map::reconfigure_and_start` that make new clients.
use mathlib.Core.List.{append-nil, append_assoc}
use wfc_io.Prelude.{
  ℕ, zero, suc, ◌+◌, ◌≤◌, ◌<◌, ◌≡◌, refl, ap, List, [], ◌∷◌, ◌++◌, arith, length, length-append,
  ltb, count, if◌then◌else◌, ◌⊎◌, inl, inr, some, none, Bool-cases, ◌==◌,
}
use wfc_io.Prelude.Dict.{Dict, values, lookup, From}

-- The variables of a filling loop.
pub record Filled : Type 0 where
  pub pool : List ℕ
  pub created : List ℕ
  pub next : ℕ

-- One round: a new client goes to the end of the pool and of the list of clients to start.
abbrev pub push : Filled → Filled
push f = record {
  pool = f.pool ++ f.next ∷ [];
  created = f.created ++ f.next ∷ [];
  next = suc f.next;
}

-- `while ( pool.size() < limit ) …`, with fuel.
unfoldable pub fill : ℕ → ℕ → Filled → Filled
fill zero limit f = f
fill (suc fuel) limit f =
    let rest = fill fuel limit (push f) in if ltb (length f.pool) limit then rest else f

-- `for ( auto& item : _clients )`: each source gets a new client.
unfoldable pub renew : ℕ → Dict ℕ → Dict ℕ
renew next [] = []
renew next ((id, cli) ∷ m) = (id, next) ∷ renew (suc next) m

-- n, n + 1, … : the clients that a loop makes.
abbrev pub range : ℕ → ℕ → List ℕ
range n zero = []
range n (suc k) = n ∷ range (suc n) k

abbrev pub extend : ℕ → Filled → Filled
extend k f = record {
  pool = f.pool ++ range f.next k;
  created = f.created ++ range f.next k;
  next = f.next + k;
}

extend-push : (k : ℕ) (f : Filled) → extend k (push f) ≡ extend (suc k) f
extend-push k f = simp append_assoc (ground arith)

-- With fuel for each round that is missing, the loop ends by its test.
pub fill_lem : (k limit : ℕ) (f : Filled) → length f.pool + k ≡ limit → fill k limit f ≡ extend k f
unfolding fill
fill_lem zero limit f h = simp append-nil (ground arith)
fill_lem (suc k) limit f h =
    ground (arith, length-append f.pool (f.next ∷ []), fill_lem k limit (push f), extend-push k f)

pub count-range_below : (c n k : ℕ) → c < n → count c (range n k) ≡ 0
count-range_below c n zero h = refl
count-range_below c n (suc k) h = ground (arith, count-range_below c (suc n) k)

pub count-range_above : (c n k : ℕ) → n + k ≤ c → count c (range n k) ≡ 0
count-range_above c n zero h = refl
count-range_above c n (suc k) h = ground (arith, count-range_above c (suc n) k)

pub count-range-le : (c n k : ℕ) → count c (range n k) ≤ 1
count-range-le c n zero = omega arith
count-range-le c n (suc k) =
    ground (arith, count-range-le c (suc n) k, count-range_below c (suc n) k)

pub length-range : (n k : ℕ) → length (range n k) ≡ k
length-range n zero = refl
length-range n (suc k) = ap suc (length-range (suc n) k)

pub values-renew : (n : ℕ) (m : Dict ℕ) → values (renew n m) ≡ range n (length m)
unfolding renew
values-renew n [] = refl
values-renew n ((id, cli) ∷ m) = ap (◌∷◌ n) (values-renew (suc n) m)

pub renew-From : (n l : ℕ) (m : Dict ℕ) → From l m → From l (renew n m)
unfolding renew
renew-From n l [] h = h
renew-From n l ((id, cli) ∷ m) h = (h.0, renew-From (suc n) (suc id) m h.1)

pub lookup-renew :
    (id n : ℕ) (m : Dict ℕ)
    → ((lookup id m ≡ none) × (lookup id (renew n m) ≡ none))
      ⊎ ((c : ℕ) × (d : ℕ) × (lookup id m ≡ some c) × (lookup id (renew n m) ≡ some d) × (n ≤ d))
unfolding lookup renew
lookup-renew id n [] = inl (refl, refl)
lookup-renew id n ((j, c) ∷ m) = elim (Bool-cases (j == id)) [
  | inl here ↦ rw here (inr (c, n, refl, refl, omega arith))
  | inr there ↦ rw there (elim (lookup-renew id (suc n) m) [
    | inl both ↦ inl both
    | inr (c, d, a, b, h) ↦ inr (c, d, a, b, omega arith)
  ])
]
