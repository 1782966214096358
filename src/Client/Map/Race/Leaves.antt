-- ===== src/Client/Map/Race/Leaves.antt =====
-- `unreg_io` of client_tcp_map.cpp looks a source up under one lock and erases it under another.
-- Two calls for one source may both look before either erases.
use wfc_io.Prelude.{ℕ, ◌<◌, ◌≡◌, ◌≢◌, none, some, List, [], ◌∷◌, arith, ◌==◌, if◌then◌else◌}
use wfc_io.Prelude.Dict.{lookup, emplace, erase, lookup-erase, lookup-insert, erase-From}
use wfc_io.Client.Map.{
  ClientMap, Event, null, create_client, take_startup, take_secondary, upsert, upsert_commit,
  release, find,
}
use wfc_io.Client.Map.Ownership.{Inv}
use wfc_io.Client.Map.Create.{lookup-find}

-- The second of two threads that both found the client: the first has given it back.
pub release_late : ℕ → ClientMap → ClientMap × List Event
release_late id s = release (find id s) id (release (find id s) id s).0

-- A new source takes the first client of the secondary pool, if the startup pool is empty.
taken :
    (j k cli : ℕ) (rest : List ℕ) (s : ClientMap)
    → lookup j s.clients ≡ none
    → s.startup ≡ []
    → s.secondary ≡ cli ∷ rest
    → let t = (upsert j s).1 in
      (t.startup ≡ [])
      × (t.secondary ≡ rest)
      × (find k t ≡ (if j == k then cli else find k s))
      × (lookup k t.clients ≡ (if j == k then some cli else lookup k s.clients))
unfolding upsert upsert_commit create_client take_startup take_secondary emplace find
taken j k cli rest s missing e f = ground (arith, lookup-insert j k cli s.clients)

module _ (id : ℕ) (s : ClientMap) (v : Inv s) (empty_startup : s.startup ≡ [])
    (empty_secondary : s.secondary ≡ []) (space : 1 < s.opt.secondary_pool) where
  -- The client stands in the pool twice.
  late_pool :
      let t = (release_late id s).0 in (t.secondary ≡ find id s ∷ find id s ∷ []) × (t.startup ≡ [])
  unfolding release_late release
  late_pool = ground arith

  late_lookup : (j : ℕ) → lookup j s.clients ≡ none → lookup j (release_late id s).0.clients ≡ none
  unfolding release_late release
  late_lookup j missing = ground (
    arith,
    lookup-erase id j 0 s.clients v.sorted,
    lookup-erase id j 0 (erase id s.clients) (erase-From id 0 s.clients v.sorted),
  )

-- A race: if two calls of `unreg_io` for one source both find its client before either erases the
-- entry, and the startup and the secondary pool were empty and the secondary may hold two, then the
-- client stands in the secondary pool twice, and the next two new sources are both served by it.
pub unreg_race :
    (id j k : ℕ) (s : ClientMap)
    → Inv s
    → s.startup ≡ []
    → s.secondary ≡ []
    → 1 < s.opt.secondary_pool
    → find id s ≢ null
    → j ≢ k
    → find j s ≡ null
    → find k s ≡ null
    → let cli = find id s in
      let t = (release_late id s).0 in
      let u = (upsert k (upsert j t).1).1 in
      (t.secondary ≡ cli ∷ cli ∷ []) × (find j u ≡ cli) × (find k u ≡ cli)
unreg_race id j k s v e f space known other no_j no_k =
    let cli = find id s in
    let t = (release_late id s).0 in
    let t1 = (upsert j t).1 in
    let pool = late_pool id s v e f space in
    let missing = late_lookup id s v e f space in
    let first =
      λ (i : ℕ). taken j i cli (cli ∷ []) t (missing j (lookup-find j s v no_j)) pool.1 pool.0 in
    let free : lookup k t1.clients ≡ none =
      ground (arith, first k, missing k (lookup-find k s v no_k)) in
    let second = λ (i : ℕ). taken k i cli [] t1 free (first k).0 (first k).1 in
    (pool.0, ground (arith, first j, second j), ground (arith, second k))
