-- ===== src/Client/Map/Touching.antt =====
-- Which clients the events of an operation of client_tcp_map.cpp are about.
use wfc_io.Prelude.{ℕ, ◌<◌, ◌≡◌, sym, ◌∙◌, ◌≢◌, List, [], ◌∷◌, arith, is, total, total-append}
use wfc_io.Iface.{performs, registers, unregisters, invokes}
use wfc_io.Client.Map.{
  ClientMap, Event, starts, stops, calls, Op, creates, regs, unregs, sends, null, step, find,
  upsert, upsert_commit, create, create_client, reg_io, unreg_io, perform_io, release, take_startup,
  take_secondary, take_primary, make_client,
}
use wfc_io.Client.Map.Ownership.{Inv, holds}
use wfc_io.Client.Map.Ownership
use wfc_io.Client.Map.Create.{upsert-Grows}
use wfc_io.Client.Map.History.{step-Inv}
use wfc_io.Client.Map.Registry.{find-upsert}
use wfc_io.Client.Map.Refinement.Steps.{serving-holds, Inv-Exclusive}

-- How often events change an adapter.
abbrev pub changes : ℕ → Event → ℕ
changes c (starts cli opt) = is c cli
changes c (stops cli) = 0
changes c (calls (performs cli d id handler)) = is c cli
changes c (calls (registers cli id itf)) = is c cli
changes c (calls (unregisters cli id)) = is c cli
changes c (calls (invokes h d)) = 0

abbrev pub touches : ℕ → List Event → ℕ
touches c = total (changes c)

-- An operation of another source, or of the user of the map.
abbrev pub Foreign : ℕ → Op → Type 0
Foreign id (creates j) = Unit
Foreign id (regs j holder) = id ≢ j
Foreign id (unregs j) = id ≢ j
Foreign id (sends d j handler) = id ≢ j
Foreign id _ = ⊥

-- A client that serves a source has been made.
pub find-below : (id : ℕ) (s : ClientMap) → Inv s → find id s ≢ null → find id s < s.next
find-below id s v h = grind (arith, serving-holds id s h, v.fresh (find id s))

upsert-started :
    (c id : ℕ) (s : ClientMap) → touches c (upsert id s).2 ≡ Ownership.started c (upsert id s).2
unfolding upsert upsert_commit create_client take_startup take_secondary take_primary make_client
upsert-started c id s = ground arith

upsert-touches : (c id : ℕ) (s : ClientMap) → Inv s → c < s.next → touches c (upsert id s).2 ≡ 0
upsert-touches c id s v h = upsert-started c id s ∙ (upsert-Grows id s v).above c h

module _ (id : ℕ) (s : ClientMap) (v : Inv s) (known : find id s ≢ null) where
  -- Another source is given another client.
  upsert_other : (j : ℕ) → id ≢ j → (upsert j s).0 ≢ find id s
  unfolding step create
  upsert_other j other e =
      let t = (upsert j s).1 in
      let exclusive : find id t ≢ null → find id t ≡ find j t → id ≡ j =
        Inv-Exclusive t (step-Inv (creates j) s tt v) id j in
      ground (arith, find-upsert j j s v, find-upsert j id s v, exclusive)

  find_other : (j : ℕ) → id ≢ j → find j s ≢ find id s
  find_other j other e = other (Inv-Exclusive s v id j known (sym e))

  pub step-touches : (op : Op) → Foreign id op → touches (find id s) (step op s).1 ≡ 0
  unfolding step create reg_io unreg_io perform_io release
  step-touches (creates j) k = upsert-touches (find id s) j s v (find-below id s v known)
  step-touches (regs j holder) k =
      let cli = (upsert j s).0 in
      ground (
        arith,
        total-append (changes (find id s)) (upsert j s).2 (calls (registers cli j holder) ∷ []),
        upsert-touches (find id s) j s v (find-below id s v known),
        upsert_other j,
      )
  step-touches (unregs j) k = ground (arith, find_other j)
  step-touches (sends d j handler) k =
      let cli = (upsert j s).0 in
      ground (
        arith,
        total-append (changes (find id s)) (upsert j s).2 (calls (performs cli d j handler) ∷ []),
        upsert-touches (find id s) j s v (find-below id s v known),
        upsert_other j,
        find_other j,
      )
  step-touches _ k = absurd k
