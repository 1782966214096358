-- ===== src/Client/Map/Race.antt =====
-- `upsert_` of client_tcp_map.cpp looks a source up under a read lock, gives the lock up, and makes
-- the entry under a second lock. Two calls for one source may both look before either writes.
pub mod Upserts
pub mod Leaves
pub mod Stopping
use wfc_io.Prelude.{ℕ, ◌≡◌, ◌∙◌, ◌≢◌, none, some, List, arith}
use wfc_io.Prelude.Dict.{lookup, emplace, count-erase}
use wfc_io.Client.Map.{ClientMap, Event, null, create_client, upsert_commit, find, stop}
use wfc_io.Client.Map.Ownership.{Inv, holds, stopped, Grows-Inv}
use wfc_io.Client.Map.Steps.{stop_all_clients-stopped}
use wfc_io.Client.Map.Create.{
  find-lookup, create_client-Takes, lookup-find, upsert_commit-Grows, upsert_commit-From,
}
use wfc_io.Client.Map.Registry.{find-commit, commit-ne-null}

-- The second of two threads that both found no client: the first has made its entry.
pub upsert_late : ℕ → ClientMap → ℕ × ClientMap × List Event
upsert_late id s = upsert_commit id (upsert_commit id s).1

commit-Inv :
    (id : ℕ) (s : ClientMap) → Inv s → lookup id s.clients ≡ none → Inv (upsert_commit id s).1
commit-Inv id s v missing =
    Grows-Inv (upsert_commit id s).2 (upsert_commit-Grows id s missing)
      (upsert_commit-From id s v.sorted) v

module _ (id cli : ℕ) (s : ClientMap) (v : Inv s) (known : lookup id s.clients ≡ some cli) where
  -- A commit for a source that has an entry leaves the entry.
  pub clients-commit : (upsert_commit id s).1.clients ≡ s.clients
  unfolding upsert_commit emplace
  clients-commit = ground (arith, (create_client-Takes s).clients, known)

  -- The client that it took is another one, and nobody holds it.
  holds-create : (holds (create_client s).0 (create_client s).1 ≡ 0) × ((create_client s).0 ≢ cli)
  holds-create =
      let t = create_client-Takes s in
      let late = (create_client s).0 in
      let free : holds late (create_client s).1 ≡ 0 =
        ground (arith, t.balance late, t.once late, t.above late, v.single late, v.fresh late) in
      (free, λ e. ground (arith, e, free, t.clients, count-erase cli id cli s.clients, known))

  pub holds-commit :
      (holds (upsert_commit id s).0 (upsert_commit id s).1 ≡ 0) × ((upsert_commit id s).0 ≢ cli)
  unfolding upsert_commit emplace
  holds-commit = ground (arith, holds-create, (create_client-Takes s).clients, known)

-- A race: if two calls for one source both find no client before either makes its entry, the source
-- is served by the client of the first. The second returns another client, which neither the map
-- nor a pool holds, so that `stop` does not stop it.
pub upsert_race :
    (id : ℕ) (s : ClientMap)
    → Inv s
    → find id s ≡ null
    → let (early, t, es) = upsert_commit id s in
      let (late, u, fs) = upsert_late id s in
      (find id u ≡ early)
      × (late ≢ early)
      × (late ≢ null)
      × (holds late u ≡ 0)
      × (stopped late (stop u).1 ≡ 0)
unfolding upsert_late
upsert_race id s v new =
    let missing = lookup-find id s v new in
    let t = (upsert_commit id s).1 in
    let early = (upsert_commit id s).0 in
    let there : lookup id t.clients ≡ some early =
      ground (arith, find-lookup id t, find-commit id id s missing, commit-ne-null id s v) in
    let vt = commit-Inv id s v missing in
    let (free, other) = holds-commit id early t vt there in
    (
      unfold find in ground (arith, clients-commit id early t vt there, there),
      other,
      commit-ne-null id t vt,
      free,
      unfold stop in stop_all_clients-stopped (upsert_commit id t).0 (upsert_commit id t).1 ∙ free,
    )
