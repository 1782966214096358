-- ===== src/Client/Map/Registry.antt =====
-- Which client of a `client_tcp_map` serves which source.
use wfc_io.Prelude.{
  ℕ, ◌<◌, ◌≡◌, sym, ◌∙◌, ◌≢◌, inl, inr, false, none, List, [], ◌∷◌, ◌++◌, arith, length, Bool,
  Bool-cases, ◌==◌, ltb, if◌then◌else◌,
}
use wfc_io.Prelude.Dict.{lookup, emplace, lookup-insert, lookup-erase}
use wfc_io.Iface.{DataPtr, WeakPtr, Handler, performs, registers, unregisters}
use wfc_io.Client.Map.{
  ClientMap, Event, reg_io, calls, stops, unregs, sends, perform_io, create, null, unreg_io,
  release, step, create_client, upsert, upsert_commit, find,
}
use wfc_io.Client.Map.Ownership.{Inv}
use wfc_io.Client.Map.History.{step-Inv}
use wfc_io.Client.Map.Pools.{create_client-first_or, upsert-Leaves}
use wfc_io.Client.Map.Create.{create_client-Takes, create_client-ne-null, lookup-find}

pub find-commit :
    (id j : ℕ) (s : ClientMap)
    → lookup id s.clients ≡ none
    → find j (upsert_commit id s).1 ≡ (if id == j then (upsert_commit id s).0 else find j s)
unfolding find upsert_commit emplace
find-commit id j s h =
    ground
      (arith, (create_client-Takes s).clients, lookup-insert id j (create_client s).0 s.clients)

upsert_known : (id : ℕ) (s : ClientMap) → find id s ≢ null → upsert id s ≡ (find id s, s, [])
unfolding upsert
upsert_known id s h = ground arith

upsert_new : (id : ℕ) (s : ClientMap) → find id s ≡ null → upsert id s ≡ upsert_commit id s
unfolding upsert
upsert_new id s h = ground arith

pub commit-ne-null : (id : ℕ) (s : ClientMap) → Inv s → (upsert_commit id s).0 ≢ null
unfolding upsert_commit
commit-ne-null id s v = create_client-ne-null s v

commit-create :
    (id : ℕ) (s : ClientMap)
    → find id s ≡ null
    → (upsert_commit id s).0 ≡ (if find id s == null then (create_client s).0 else find id s)
unfolding upsert_commit
commit-create id s new = ground arith

abbrev Upserted : ℕ → ℕ → ClientMap → ℕ × ClientMap × List Event → Type 0
Upserted id j s r =
    (r.0 ≢ null)
    × (r.0 ≡ (if find id s == null then (create_client s).0 else find id s))
    × (find j r.1 ≡ (if id == j then r.0 else find j s))
    × (upsert id r.1 ≡ (r.0, r.1, []))

commit-Upserted :
    (id j : ℕ) (s : ClientMap) → Inv s → find id s ≡ null → Upserted id j s (upsert_commit id s)
commit-Upserted id j s v new =
    let missing = lookup-find id s v new in
    let r = upsert_commit id s in
    let there : find id r.1 ≡ r.0 = ground (arith, find-commit id id s missing) in
    let real = commit-ne-null id s v in
    (
      real,
      commit-create id s new,
      find-commit id j s missing,
      ground (arith, upsert_known id r.1 (λ e. real (sym there ∙ e)), there),
    )

-- `upsert_` gives a source that has a client that client, and any other one the client that
-- `create_` yields, which is never null; the source has it from then on, a second call changes
-- nothing and makes no call, and no other source gets another client.
pub find-upsert :
    (id j : ℕ) (s : ClientMap)
    → Inv s
    → let (cli, t, es) = upsert id s in
      (cli ≢ null)
      × (cli ≡ (if find id s == null then (create_client s).0 else find id s))
      × (find j t ≡ (if id == j then cli else find j s))
      × (upsert id t ≡ (cli, t, []))
find-upsert id j s v = elim (Bool-cases (find id s == null)) [
  | inl new ↦ rw (upsert_new id s (ground arith)) (commit-Upserted id j s v (ground arith))
  | inr old ↦
      let known : find id s ≢ null = ground arith in
      rw (upsert_known id s known) (known, ground arith, ground arith, upsert_known id s known)
]

find-erased :
    (cli id j : ℕ) (s : ClientMap)
    → Inv s
    → find j (release cli id s).0 ≡ (if id == j then null else find j s)
unfolding find release
find-erased cli id j s v = ground (arith, lookup-erase id j 0 s.clients v.sorted)

unreg_known :
    (id : ℕ) (s : ClientMap)
    → s.stop_flag ≡ false
    → find id s ≢ null
    → unreg_io id s ≡ release (find id s) id s
unfolding unreg_io
unreg_known id s running known = ground arith

-- Whether the secondary pool may take one more client.
abbrev pub room : ClientMap → Bool
room s = ltb (length s.secondary) s.opt.secondary_pool

-- While the map is not stopped, `unreg_io` of a source that has a client tells that client so
-- first. The source has no client afterwards, and every other source has the one that it had. The
-- client goes to the end of the secondary pool if that has room, and is stopped if it has none.
pub unreg_io_lem :
    (id j : ℕ) (s : ClientMap)
    → Inv s
    → s.stop_flag ≡ false
    → find id s ≢ null
    → let cli = find id s in
      let (t, es) = unreg_io id s in
      (find j t ≡ (if id == j then null else find j s))
      × (t.secondary ≡ (if room s then s.secondary ++ cli ∷ [] else s.secondary))
      × (es ≡ calls (unregisters cli id) ∷ (if room s then [] else stops cli ∷ []))
unreg_io_lem id j s v running known =
    let cli = find id s in
    rw (unreg_known id s running known)
      (find-erased cli id j s v, unfold release in ground arith, unfold release in ground arith)

commit_reuses :
    (j cli id : ℕ) (s : ClientMap)
    → s.startup ≡ []
    → s.secondary ≡ []
    → 0 < s.opt.secondary_pool
    → (upsert_commit j (release cli id s).0).0 ≡ cli
unfolding upsert_commit release
commit_reuses j cli id s e f space = ground (arith, create_client-first_or (release cli id s).0)

-- A client that a source gives back serves the next new source, if the startup and the secondary
-- pool are empty and the secondary pool may hold a client.
pub client_reused :
    (id j : ℕ) (s : ClientMap)
    → Inv s
    → s.stop_flag ≡ false
    → find id s ≢ null
    → find j s ≡ null
    → s.startup ≡ []
    → s.secondary ≡ []
    → 0 < s.opt.secondary_pool
    → find j (upsert j (unreg_io id s).0).1 ≡ find id s
unfolding step
client_reused id j s v running known new e f space =
    let cli = find id s in
    let t = (release cli id s).0 in
    let vt : Inv t = rw (unreg_known id s running known) at (step-Inv (unregs id) s tt v) in
    let gone : find j t ≡ null = ground (arith, find-erased cli id j s v) in
    rw (unreg_known id s running known) (
      ground (
        arith,
        upsert_new j t gone,
        find-commit j j t (lookup-find j t vt gone),
        commit_reuses j cli id s e f space,
      ))

-- While the map is not stopped, `reg_io` tells the client of the source, which it finds or makes
-- and which the source keeps, of the source's object, after the client is started, if it is new; no
-- other source gets another client.
pub reg_io_lem :
    (id j : ℕ) (itf : WeakPtr) (s : ClientMap)
    → Inv s
    → s.stop_flag ≡ false
    → let (t, es) = reg_io id itf s in
      (find id t ≢ null)
      × (find j t ≡ (if id == j then find id t else find j s))
      × (es ≡ (upsert id s).2 ++ calls (registers (find id t) id itf) ∷ [])
      × (t.stop_flag ≡ false)
unfolding reg_io
reg_io_lem id j itf s v running =
    let u = find-upsert id id s v in ground (arith, u, find-upsert id j s v, upsert-Leaves id s)

-- A source that has a client sends over it.
pub sends_known :
    (d : DataPtr) (id : ℕ) (handler : Handler) (s : ClientMap)
    → s.stop_flag ≡ false
    → find id s ≢ null
    → step (sends d id handler) s ≡ (s, calls (performs (find id s) d id handler) ∷ [])
unfolding step perform_io
sends_known d id handler s running known = ground arith

-- A source that has no client leaves nothing.
pub unreg_unknown : (id : ℕ) (s : ClientMap) → find id s ≡ null → unreg_io id s ≡ (s, [])
unfolding unreg_io
unreg_unknown id s new = ground arith

-- While the map is not stopped, a message goes to the client of the source, which it finds or
-- makes.
pub perform_io_lem :
    (d : DataPtr) (id : ℕ) (handler : Handler) (s : ClientMap)
    → Inv s
    → s.stop_flag ≡ false
    → let (t, es) = perform_io d id handler s in
      (t ≡ (upsert id s).1)
      × (es ≡ (upsert id s).2 ++ calls (performs (find id t) d id handler) ∷ [])
unfolding perform_io create
perform_io_lem d id handler s v running = ground (arith, find-upsert id id s v, upsert_known id s)
