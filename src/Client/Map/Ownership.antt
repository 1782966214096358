-- ===== src/Client/Map/Ownership.antt =====
-- Who holds the clients of a `client_tcp_map`: each is at one place, in the map or in one pool, and
-- is started once, when it is made.
use wfc_io.Prelude.{ℕ, ◌+◌, ◌≤◌, ◌<◌, ◌≡◌, refl, List, [], ◌∷◌, ◌++◌, map, arith, is, count}
use wfc_io.Prelude.Dict.{values, From}
use wfc_io.Client.Options.{Config}
use wfc_io.Client.Map.{ClientMap, Event, starts, stops, calls, null}

-- How often a client is held.
abbrev pub holds : ℕ → ClientMap → ℕ
holds c s = count c (values s.clients) + count c s.startup + count c s.primary + count c s.secondary

-- How often a client is started, and stopped, by a list of events.
abbrev pub started : ℕ → List Event → ℕ
started c [] = 0
started c (starts d opt ∷ es) = is c d + started c es
started c (stops d ∷ es) = started c es
started c (calls call ∷ es) = started c es

abbrev pub stopped : ℕ → List Event → ℕ
stopped c [] = 0
stopped c (starts d opt ∷ es) = stopped c es
stopped c (stops d ∷ es) = is c d + stopped c es
stopped c (calls call ∷ es) = stopped c es

pub started-append :
    (c : ℕ) (es fs : List Event) → started c (es ++ fs) ≡ started c es + started c fs
started-append c [] fs = omega arith
started-append c (starts d opt ∷ es) fs = omega (arith, started-append c es fs)
started-append c (stops d ∷ es) fs = started-append c es fs
started-append c (calls call ∷ es) fs = started-append c es fs

pub stopped-append :
    (c : ℕ) (es fs : List Event) → stopped c (es ++ fs) ≡ stopped c es + stopped c fs
stopped-append c [] fs = omega arith
stopped-append c (starts d opt ∷ es) fs = stopped-append c es fs
stopped-append c (stops d ∷ es) fs = omega (arith, stopped-append c es fs)
stopped-append c (calls call ∷ es) fs = stopped-append c es fs

pub started-map_stops : (c : ℕ) (xs : List ℕ) → started c (map stops xs) ≡ 0
started-map_stops c [] = refl
started-map_stops c (x ∷ xs) = started-map_stops c xs

pub stopped-map_stops : (c : ℕ) (xs : List ℕ) → stopped c (map stops xs) ≡ count c xs
stopped-map_stops c [] = refl
stopped-map_stops c (x ∷ xs) = omega (arith, stopped-map_stops c xs)

pub started-map_starts :
    (c : ℕ) (opt : Config) (xs : List ℕ) → started c (map (λ x. starts x opt) xs) ≡ count c xs
started-map_starts c opt [] = refl
started-map_starts c opt (x ∷ xs) = omega (arith, started-map_starts c opt xs)

pub stopped-map_starts :
    (c : ℕ) (opt : Config) (xs : List ℕ) → stopped c (map (λ x. starts x opt) xs) ≡ 0
stopped-map_starts c opt [] = refl
stopped-map_starts c opt (x ∷ xs) = stopped-map_starts c opt xs

-- No client is held twice, none is null, and those to come are held nowhere.
pub record Inv (s : ClientMap) : Type 0 where
  pub single : (c : ℕ) → holds c s ≤ 1
  pub fresh : (c : ℕ) → s.next ≤ c → holds c s ≡ 0
  pub nonnull : holds null s ≡ 0
  pub positive : 0 < s.next
  pub sorted : From 0 s.clients

-- What the events `es` do on the way from `s` to `t`: clients are started once, with new numbers,
-- and a client is started and not yet stopped as often as it is held.
pub record Grows (s : ClientMap) (es : List Event) (t : ClientMap) : Type 0 where
  pub balance : (c : ℕ) → started c es + holds c s ≡ stopped c es + holds c t
  pub once : (c : ℕ) → started c es ≤ 1
  pub above : (c : ℕ) → c < s.next → started c es ≡ 0
  pub below : (c : ℕ) → t.next ≤ c → started c es ≡ 0
  pub grows : s.next ≤ t.next

pub Grows-Inv :
    {s t : ClientMap} (es : List Event) → Grows s es t → From 0 t.clients → Inv s → Inv t
Grows-Inv es g f v = record {
  single = λ c. grind (arith, g.balance, g.once, g.above, v.single, v.fresh);
  fresh = λ c h. omega (arith, g.balance c, g.below c h, v.fresh c (omega (arith, g.grows)));
  nonnull = omega (arith, g.balance null, g.above null v.positive, v.nonnull);
  positive = omega (arith, g.grows, v.positive);
  sorted = f;
}

pub Grows-refl : (s : ClientMap) → Grows s [] s
Grows-refl s = record {
  balance = λ c. refl;
  once = λ c. omega arith;
  above = λ c h. refl;
  below = λ c h. refl;
  grows = omega arith;
}

pub Grows-trans :
    {s t u : ClientMap} (es fs : List Event) → Grows s es t → Grows t fs u → Grows s (es ++ fs) u
Grows-trans {s} {t} {u} es fs g h = record {
  balance =
      λ c. omega (arith, started-append c es fs, stopped-append c es fs, g.balance c, h.balance c);
  once = λ c. grind (arith, started-append, g.once, h.once, g.below, h.above);
  above =
      λ c p. omega (arith, started-append c es fs, g.above c p, h.above c (omega (arith, g.grows)));
  below =
      λ c p. omega (arith, started-append c es fs, h.below c p, g.below c (omega (arith, h.grows)));
  grows = omega (arith, g.grows, h.grows);
}
