-- ===== src/Client/System/Fatal.antt =====
-- That the error for several sources of client_tcp_adapter.cpp is not logged over
-- client_tcp_map.cpp.
use wfc_io.Prelude.{
  ℕ, ◌≡◌, refl, ◌∙◌, ◌⊎◌, inl, inr, Bool, false, List, [], ◌∷◌, ◌++◌, arith, map, total,
  total-append,
}
use wfc_io.Iface.{DataPtr, WeakPtr, Handler, Alive, performs, registers, unregisters, invokes}
use wfc_io.Client.Options.{Config}
use wfc_io.Client.Map.{Event, starts, stops, calls, Op, regs, find, step, reg_io, upsert}
use wfc_io.Client.Map.Ownership.{Inv}
use wfc_io.Client.Map.History.{init-Inv}
use wfc_io.Client.Map.Registry.{reg_io_lem}
use wfc_io.Client.Map.Restart.{step_ignored}
use wfc_io.Client.Map.Calling.{upsert-called, registering, upsert-registering}
use wfc_io.Client.Map.Refinement.Steps.{step-Allowed}
use wfc_io.Client.Map.Owning.{Owned-own}
use wfc_io.Client.Adapter
use wfc_io.Client.Adapter.Performing.{Wire, wrap_holder, send_data, try_anew, unsent}
use wfc_io.Client.Adapter.Performing as Performing
use wfc_io.Client.System.{World, Store, Output, System, init, apply, drive, operate, run}
use wfc_io.Client.System.Serving.{AllInternal, run-Inv}
use wfc_io.Client.System.Noting.{noted, drive-noted}
use wfc_io.Client.System.Sources.{Noted, run-Noted}

-- How often adapters log a fatal error.
abbrev is_fatal : Adapter.Event → ℕ
is_fatal Adapter.fatal = 1
is_fatal e = 0

abbrev pub fatals : Output → ℕ
fatals = total (λ o. is_fatal o.1)

fatals-map :
    (cli : ℕ) (es : List Adapter.Event) → fatals (map (λ e. (cli, e)) es) ≡ total is_fatal es
fatals-map cli [] = refl
fatals-map cli (e ∷ es) = omega (arith, fatals-map cli es)

perform_io_quiet :
    (alive : Alive) (wire : Wire) (d : DataPtr) (id : ℕ) (handler : Handler) (a : Adapter.Adapter)
    → total is_fatal (Performing.perform_io alive wire d id handler a).1 ≡ 0
unfolding Performing.perform_io wrap_holder send_data try_anew unsent
perform_io_quiet alive wire d id handler a = ground arith

module _ (w : World) (fine : (c : ℕ) → w.throws c ≡ false) where
  apply_quiet : (e : Event) (st : Store) → registering e ≡ 0 → fatals (apply w e st).1 ≡ 0
  unfolding apply Adapter.start Adapter.stop
  apply_quiet (starts cli opt) st h = ground (arith, fine cli)
  apply_quiet (stops cli) st h = refl
  apply_quiet (calls (performs cli d id handler)) st h =
      fatals-map cli (Performing.perform_io w.alive (w.wire cli) d id handler (st cli)).1
      ∙ perform_io_quiet w.alive (w.wire cli) d id handler (st cli)
  apply_quiet (calls (registers cli id itf)) st h = absurd (omega (arith, h))
  apply_quiet (calls (unregisters cli id)) st h = refl
  apply_quiet (calls (invokes f d)) st h = refl

  drive_quiet :
      (es : List Event) (st : Store) → total registering es ≡ 0 → fatals (drive w es st).1 ≡ 0
  unfolding drive
  drive_quiet [] st h = refl
  drive_quiet (e ∷ es) st h =
      let st' = (apply w e st).0 in
      omega (
        arith,
        total-append (λ o. is_fatal o.1) (apply w e st).1 (drive w es st').1,
        apply_quiet e st (omega arith),
        drive_quiet es st' (omega arith),
      )

  -- A registration with a client that is noted for nobody or for that source.
  registers_quiet :
      (es : List Event) (cli id : ℕ) (itf : WeakPtr) (st : Store)
      → total registering es ≡ 0
      → (noted cli (drive w es st).0 ≡ 0) ⊎ (noted cli (drive w es st).0 ≡ id)
      → fatals (drive w (es ++ calls (registers cli id itf) ∷ []) st).1 ≡ 0
  unfolding drive apply Adapter.reg_io
  registers_quiet [] cli id itf st h o =
      ground (arith, fatals-map cli (Adapter.reg_io w.alive id itf (st cli)).1)
  registers_quiet (e ∷ es) cli id itf st h o =
      let st' = (apply w e st).0 in
      let fs = calls (registers cli id itf) ∷ [] in
      omega (
        arith,
        total-append (λ o. is_fatal o.1) (apply w e st).1 (drive w (es ++ fs) st').1,
        apply_quiet e st (omega arith),
        registers_quiet es cli id itf st' (omega arith) o,
      )

  regs_quiet :
      (id : ℕ) (itf : WeakPtr) (s : System)
      → Inv s.clients
      → Noted s
      → fatals (operate w (regs id itf) s).1 ≡ 0
  unfolding operate step
  regs_quiet id itf s v n = elim (step-Allowed (regs id itf) s.clients tt v) [
    | inl (halted, _) ↦ rw (step_ignored (regs id itf) s.clients tt halted) (unfold drive in refl)
    | inr (running, serves) ↦
        let (known, kept, es, on) = reg_io_lem id id itf s.clients v running in
        let cli = find id (reg_io id itf s.clients).0 in
        let fs = (upsert id s.clients).2 in
        let before = drive-noted w fs cli s.adapters (upsert-called cli id s.clients) in
        let own : (noted cli s.adapters ≡ 0) ⊎ (noted cli s.adapters ≡ id) =
          Owned-own (regs id itf) s.clients tt v id (noted cli s.adapters) serves (n cli) in
        rw es (
          registers_quiet fs cli id itf s.adapters (upsert-registering id s.clients)
            (ground (arith, before, own)))
  ]

-- A client is never registered for two sources at once: after any history of calls other than
-- `free` of a map and its adapters that are new, whatever the TCP clients do, the registration of
-- any source makes no adapter log a fatal error, if no start of a TCP client throws. So the error
-- of `client_tcp_adapter::reg_io` for several sources is not logged.
pub one_source :
    (opt : Config) (new_id : ℕ → ℕ) (keep_alive : Bool) (unset : Config)
    (before : List (World × Op)) (w : World) (id : ℕ) (itf : WeakPtr)
    → AllInternal before
    → ((c : ℕ) → w.throws c ≡ false)
    → fatals (operate w (regs id itf) (run before (init new_id keep_alive unset opt))).1 ≡ 0
one_source opt new_id keep_alive unset before w id itf i fine =
    let z = init new_id keep_alive unset opt in
    regs_quiet w fine id itf (run before z) (run-Inv before z i (init-Inv opt))
      (run-Noted before z i (init-Inv opt) (λ c. unfold Adapter.init in inl refl))
