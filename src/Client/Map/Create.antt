-- ===== src/Client/Map/Create.antt =====
-- `create_` and `upsert_` of client_tcp_map.cpp: where a client comes from.
use wfc_io.Prelude.{
  ℕ, ◌+◌, ◌≤◌, ◌<◌, ◌≡◌, refl, ◌≢◌, inl, inr, none, some, List, [], ◌∷◌, arith, is, count-append,
  Option-cases, Bool-cases, ◌==◌,
}
use wfc_io.Prelude.Dict.{lookup, emplace, From, insert-From, count-insert, count-erase}
use wfc_io.Client.Map.{
  ClientMap, Event, null, make_client, take_primary, take_secondary, take_startup, create_client,
  upsert_commit, upsert, find,
}
use wfc_io.Client.Map.Ownership.{holds, started, stopped, Inv, Grows, Grows-refl}

-- `cli` leaves the pools of `s`, or is made, on the way to `t`; the map stays as it is.
pub record Takes (s : ClientMap) (cli : ℕ) (t : ClientMap) (es : List Event) : Type 0 where
  pub balance : (c : ℕ) → started c es + holds c s ≡ is c cli + holds c t
  pub quiet : (c : ℕ) → stopped c es ≡ 0
  pub once : (c : ℕ) → started c es ≤ 1
  pub above : (c : ℕ) → c < s.next → started c es ≡ 0
  pub below : (c : ℕ) → t.next ≤ c → started c es ≡ 0
  pub grows : s.next ≤ t.next
  pub clients : t.clients ≡ s.clients

abbrev pub Taking : ClientMap → ℕ × ClientMap × List Event → Type 0
Taking s r = Takes s r.0 r.1 r.2

make_client-Takes : (s : ClientMap) → Taking s (make_client s)
unfolding make_client
make_client-Takes s = record {
  balance = λ c. omega arith;
  quiet = λ c. refl;
  once = λ c. ground arith;
  above = λ c h. ground arith;
  below = λ c h. ground arith;
  grows = omega arith;
  clients = refl;
}

take_primary-Takes : (xs : List ℕ) (s : ClientMap) → s.primary ≡ xs → Taking s (take_primary xs s)
unfolding take_primary
take_primary-Takes [] s e = make_client-Takes s
take_primary-Takes (cli ∷ rest) s e = record {
  balance = λ c. ground (arith, count-append c rest (s.next ∷ []));
  quiet = λ c. refl;
  once = λ c. ground arith;
  above = λ c h. ground arith;
  below = λ c h. ground arith;
  grows = omega arith;
  clients = refl;
}

take_secondary-Takes :
    (xs : List ℕ) (s : ClientMap) → s.secondary ≡ xs → Taking s (take_secondary xs s)
unfolding take_secondary
take_secondary-Takes [] s e = take_primary-Takes s.primary s refl
take_secondary-Takes (cli ∷ rest) s e = record {
  balance = λ c. ground arith;
  quiet = λ c. refl;
  once = λ c. ground arith;
  above = λ c h. ground arith;
  below = λ c h. ground arith;
  grows = omega arith;
  clients = refl;
}

take_startup-Takes : (xs : List ℕ) (s : ClientMap) → s.startup ≡ xs → Taking s (take_startup xs s)
unfolding take_startup
take_startup-Takes [] s e = take_secondary-Takes s.secondary s refl
take_startup-Takes (cli ∷ rest) s e = record {
  balance = λ c. ground arith;
  quiet = λ c. refl;
  once = λ c. ground arith;
  above = λ c h. ground arith;
  below = λ c h. ground arith;
  grows = omega arith;
  clients = refl;
}

pub create_client-Takes : (s : ClientMap) → Taking s (create_client s)
unfolding create_client
create_client-Takes s = take_startup-Takes s.startup s refl

pub create_client-ne-null : (s : ClientMap) → Inv s → (create_client s).0 ≢ null
create_client-ne-null s v e =
    let t = create_client-Takes s in
    ground (arith, t.balance null, t.above null v.positive, v.nonnull)

pub lookup-find : (id : ℕ) (s : ClientMap) → Inv s → find id s ≡ null → lookup id s.clients ≡ none
unfolding find
lookup-find id s v e = elim (Option-cases (lookup id s.clients)) [
  | inl missing ↦ missing
  | inr (cli, found) ↦ ground (arith, count-erase cli id cli s.clients, v.nonnull, found)
]

pub find-lookup :
    (id : ℕ) (s : ClientMap) → find id s ≢ null → lookup id s.clients ≡ some (find id s)
unfolding find
find-lookup id s h = ground arith

-- The new client of a source goes from the pools into the map.
pub upsert_commit-Grows :
    (id : ℕ) (s : ClientMap)
    → lookup id s.clients ≡ none
    → Grows s (upsert_commit id s).2 (upsert_commit id s).1
unfolding upsert_commit emplace
upsert_commit-Grows id s missing =
    let t = create_client-Takes s in
    record {
      balance = λ c. ground (
        arith,
        t.balance c,
        t.quiet c,
        t.clients,
        count-insert c id (create_client s).0 s.clients,
      );
      once = t.once;
      above = t.above;
      below = t.below;
      grows = t.grows;
    }

pub upsert_commit-From :
    (id : ℕ) (s : ClientMap) → From 0 s.clients → From 0 (upsert_commit id s).1.clients
unfolding upsert_commit emplace
upsert_commit-From id s f =
    let t = create_client-Takes s in
    ground (arith, t.clients, insert-From id 0 (create_client s).0 s.clients)

pub upsert-Grows : (id : ℕ) (s : ClientMap) → Inv s → Grows s (upsert id s).2 (upsert id s).1
unfolding upsert
upsert-Grows id s v = elim (Bool-cases (find id s == null)) [
  | inl new ↦ rw new (upsert_commit-Grows id s (lookup-find id s v (ground arith)))
  | inr old ↦ rw old (Grows-refl s)
]

pub upsert-From : (id : ℕ) (s : ClientMap) → From 0 s.clients → From 0 (upsert id s).1.clients
unfolding upsert
upsert-From id s f = ground (arith, upsert_commit-From id s f)
