-- ===== src/Client/Map/Race/Upserts.antt =====
-- Any number of threads in `upsert_` of client_tcp_map.cpp, each of which found no client for its
-- source: their second critical sections, in the order in which they run.
use wfc_io.Prelude.{
  ℕ, ◌≡◌, refl, sym, ◌∙◌, ◌≢◌, inl, inr, none, some, List, [], ◌∷◌, arith, Option-cases,
}
use wfc_io.Prelude.Dict.{lookup, emplace, count-erase}
use wfc_io.Client.Map.{ClientMap, null, create_client, upsert_commit, find}
use wfc_io.Client.Map.Ownership.{Inv, holds, Grows-Inv}
use wfc_io.Client.Map.Create.{create_client-Takes, upsert_commit-Grows, upsert_commit-From}
use wfc_io.Client.Map.Registry.{find-commit, commit-ne-null}
use wfc_io.Client.Map.Race.{clients-commit, holds-commit}
use wfc_io.Client.Map.Refinement.{view, Exclusive}
use wfc_io.Client.Map.Refinement.Steps.{Inv-Exclusive}

pub commits : List ℕ → ClientMap → ClientMap
commits [] s = s
commits (id ∷ ids) s = commits ids (upsert_commit id s).1

late-holds :
    (id cli c : ℕ) (s : ClientMap)
    → lookup id s.clients ≡ some cli
    → (holds c (upsert_commit id s).1 ≡ holds c (create_client s).1)
      × ((upsert_commit id s).1.next ≡ (create_client s).1.next)
unfolding upsert_commit emplace
late-holds id cli c s known = ground (arith, known, (create_client-Takes s).clients)

-- A commit that comes late takes a client out of the pools, and nothing holds it then.
late-Inv :
    (id cli : ℕ) (s : ClientMap)
    → Inv s
    → lookup id s.clients ≡ some cli
    → Inv (upsert_commit id s).1
late-Inv id cli s v known =
    let t = create_client-Takes s in
    let same = λ (c : ℕ). late-holds id cli c s known in
    record {
      single = λ c. grind (arith, same c, t.balance c, t.once c, t.above c, v.single c, v.fresh c);
      fresh = λ c h. ground (arith, same c, t.balance c, t.below c, v.fresh c, t.grows);
      nonnull = ground (arith, same null, t.balance null, t.above null, v.positive, v.nonnull);
      positive = ground (arith, same 0, t.grows, v.positive);
      sorted = rw (clients-commit id cli s v known) v.sorted;
    }

commit-Inv : (id : ℕ) (s : ClientMap) → Inv s → Inv (upsert_commit id s).1
commit-Inv id s v = elim (Option-cases (lookup id s.clients)) [
  | inl missing ↦
      Grows-Inv (upsert_commit id s).2 (upsert_commit-Grows id s missing)
        (upsert_commit-From id s v.sorted) v
  | inr (cli, known) ↦ late-Inv id cli s v known
]

pub find-missing : (id : ℕ) (s : ClientMap) → lookup id s.clients ≡ none → find id s ≡ null
unfolding find
find-missing id s e = rw (e, find)

find-known :
    (id cli : ℕ) (s : ClientMap) → Inv s → lookup id s.clients ≡ some cli → find id s ≢ null
unfolding find
find-known id cli s v e = ground (arith, e, count-erase null id null s.clients, v.nonnull)

pub find-clients : (j : ℕ) (s t : ClientMap) → t.clients ≡ s.clients → find j t ≡ find j s
unfolding find
find-clients j s t e = rw e

commit_keeps :
    (id j : ℕ) (s : ClientMap) → Inv s → find j s ≢ null → find j (upsert_commit id s).1 ≡ find j s
commit_keeps id j s v h = elim (Option-cases (lookup id s.clients)) [
  | inl missing ↦ ground (arith, find-commit id j s missing, find-missing id s missing)
  | inr (cli, known) ↦ find-clients j s (upsert_commit id s).1 (clients-commit id cli s v known)
]

commit_serves : (id : ℕ) (s : ClientMap) → Inv s → find id (upsert_commit id s).1 ≢ null
commit_serves id s v = elim (Option-cases (lookup id s.clients)) [
  | inl missing ↦ ground (arith, find-commit id id s missing, commit-ne-null id s v)
  | inr (cli, known) ↦ ground (
    arith,
    find-clients id s (upsert_commit id s).1 (clients-commit id cli s v known),
    find-known id cli s v known,
  )
]

commits-Inv : (ids : List ℕ) (s : ClientMap) → Inv s → Inv (commits ids s)
unfolding commits
commits-Inv [] s v = v
commits-Inv (id ∷ ids) s v = commits-Inv ids (upsert_commit id s).1 (commit-Inv id s v)

commits_keep :
    (ids : List ℕ) (j : ℕ) (s : ClientMap)
    → Inv s
    → find j s ≢ null
    → find j (commits ids s) ≡ find j s
unfolding commits
commits_keep [] j s v h = refl
commits_keep (id ∷ ids) j s v h =
    let e = commit_keeps id j s v h in
    commits_keep ids j (upsert_commit id s).1 (commit-Inv id s v) (λ z. h (sym e ∙ z)) ∙ e

abbrev pub AllServed : List ℕ → ClientMap → Type 0
AllServed [] s = Unit
AllServed (id ∷ ids) s = (find id s ≢ null) × AllServed ids s

commits_serve : (ids : List ℕ) (s : ClientMap) → Inv s → AllServed ids (commits ids s)
unfolding commits
commits_serve [] s v = tt
commits_serve (id ∷ ids) s v =
    let t = (upsert_commit id s).1 in
    let w = commit-Inv id s v in
    let e = commits_keep ids id t w (commit_serves id s v) in
    (λ z. commit_serves id s v (sym e ∙ z), commits_serve ids t w)

-- What a call gives back that has found no client and makes its entry in a state `s`.
pub record Returns (id : ℕ) (s : ClientMap) : Type 0 where
  pub real : (upsert_commit id s).0 ≢ null
  pub serves : find id s ≡ null → find id (upsert_commit id s).1 ≡ (upsert_commit id s).0
  pub other : find id s ≢ null → (upsert_commit id s).0 ≢ find id s
  pub unheld : find id s ≢ null → holds (upsert_commit id s).0 (upsert_commit id s).1 ≡ 0

find_of_lookup : (id cli : ℕ) (s : ClientMap) → lookup id s.clients ≡ some cli → find id s ≡ cli
unfolding find
find_of_lookup id cli s e = rw (e, find)

commit-Returns : (id : ℕ) (s : ClientMap) → Inv s → Returns id s
commit-Returns id s v = elim (Option-cases (lookup id s.clients)) [
  | inl missing ↦ record {
    real = commit-ne-null id s v;
    serves = λ e. ground (arith, find-commit id id s missing);
    other = λ h. absurd (h (find-missing id s missing));
    unheld = λ h. absurd (h (find-missing id s missing));
  }
  | inr (cli, known) ↦
      let (free, different) = holds-commit id cli s v known in
      record {
        real = commit-ne-null id s v;
        serves = λ e. absurd (find-known id cli s v known e);
        other = λ h e. different (e ∙ find_of_lookup id cli s known);
        unheld = λ h. free;
      }
]

-- Calls of `upsert_` that run at the same time leave every source with one client of its own, and
-- may lose others: if any number of threads have looked for the clients of any sources, the same or
-- different ones, and found none, and then make their entries, in whatever order, each of these
-- sources has a client afterwards, a source that had one by the time keeps it, and no two sources
-- have the same client. A further such call gives back a client: the one that its source has from
-- then on, if the source had none yet; and else another one than the source has, which neither the
-- map nor a pool then holds.
pub concurrent_upserts :
    (early late : List ℕ) (s : ClientMap)
    → Inv s
    → let t = commits early s in
      let u = commits late t in
      AllServed early t
      × AllServed late u
      × ((j : ℕ) → find j t ≢ null → find j u ≡ find j t)
      × Exclusive (view u)
      × ((id : ℕ) → Returns id u)
concurrent_upserts early late s v =
    let t = commits early s in
    let w = commits-Inv early s v in
    (
      commits_serve early s v,
      commits_serve late t w,
      λ j h. commits_keep late j t w h,
      Inv-Exclusive (commits late t) (commits-Inv late t w),
      λ id. commit-Returns id (commits late t) (commits-Inv late t w),
    )
