-- ===== src/Client/System/Losing.antt =====
-- What client_tcp_map::reconfigure_and_start does to the sources that registered an object.
use wfc_io.Prelude.{ℕ, ◌≤◌, ◌≡◌, refl, ◌∙◌, ◌≢◌, Bool, List, [], ◌∷◌, arith, total}
use wfc_io.Iface.{DataPtr, Alive, Handler, performs, registers, unregisters, invokes}
use wfc_io.Client.Options.{Config}
use wfc_io.Client.Map.{
  Event, starts, stops, calls, Op, reconfigures, step, reconfigure_and_start, find, null,
}
use wfc_io.Client.Map.Ownership.{Inv}
use wfc_io.Client.Map.History.{IsInternal, step-Inv, init-Inv}
use wfc_io.Client.Map.Restart.{reconfigure_replaces}
use wfc_io.Client.Map.Calling.{called, step-called, step-grows, reconfigure-called}
use wfc_io.Client.Adapter
use wfc_io.Client.Adapter.{nobody, receive}
use wfc_io.Client.System.{World, Store, System, init, apply, drive, operate, run}
use wfc_io.Client.System.Binding.{adapter_of}
use wfc_io.Client.System.Serving.{AllInternal, run-Inv}

apply-holder :
    (w : World) (e : Event) (c : ℕ) (st : Store)
    → called c e ≡ 0
    → ((apply w e st).0 c).holder ≡ (st c).holder
unfolding apply Adapter.start
apply-holder w (starts cli opt) c st h = ground arith
apply-holder w (stops cli) c st h = refl
apply-holder w (calls (performs cli d id handler)) c st h = ground arith
apply-holder w (calls (registers cli id itf)) c st h = ground arith
apply-holder w (calls (unregisters cli id)) c st h = ground arith
apply-holder w (calls (invokes f d)) c st h = refl

pub drive-holder :
    (w : World) (es : List Event) (c : ℕ) (st : Store)
    → total (called c) es ≡ 0
    → ((drive w es st).0 c).holder ≡ (st c).holder
unfolding drive
drive-holder w [] c st h = refl
drive-holder w (e ∷ es) c st h =
    drive-holder w es c (apply w e st).0 (omega arith) ∙ apply-holder w e c st (omega arith)

-- The adapters that are not made yet have no holder.
abbrev Unheld : System → Type 0
Unheld s = (c : ℕ) → s.clients.next ≤ c → (s.adapters c).holder ≡ nobody

operate-Unheld :
    (w : World) (op : Op) (s : System)
    → IsInternal op
    → Inv s.clients
    → Unheld s
    → Unheld (operate w op s).0
unfolding operate
operate-Unheld w op s i v u c above =
    drive-holder w (step op s.clients).1 c s.adapters (step-called op c s.clients i v above)
    ∙ u c (omega (arith, step-grows op s.clients i v))

run-Unheld :
    (ops : List (World × Op)) (s : System)
    → AllInternal ops
    → Inv s.clients
    → Unheld s
    → Unheld (run ops s)
unfolding run
run-Unheld [] s i v u = u
run-Unheld ((w, op) ∷ ops) s i v u =
    run-Unheld ops (operate w op s).0 i.1 (unfold operate in step-Inv op s.clients i.0 v)
      (operate-Unheld w op s i.0 v u)

receive_nobody :
    (alive : Alive) (d : DataPtr) (handler : Handler) (a : Adapter.Adapter)
    → a.holder ≡ nobody
    → receive alive d handler a ≡ []
unfolding receive
receive_nobody alive d handler a h = ground arith

reconfigure-Unheld :
    (w : World) (opt : Config) (id : ℕ) (s : System)
    → Inv s.clients
    → Unheld s
    → find id s.clients ≢ null
    → let t = (operate w (reconfigures opt) s).0 in
      (find id t.clients ≢ null) × ((adapter_of id t).holder ≡ nobody)
unfolding operate step
reconfigure-Unheld w opt id s v u known =
    let cli = find id (reconfigure_and_start opt s.clients).0 in
    let r = reconfigure_replaces opt s.clients null id v in
    let fresh : s.clients.next ≤ cli = ground (arith, r.2, r.3) in
    (
      ground (arith, r.2),
      drive-holder w (reconfigure_and_start opt s.clients).1 cli s.adapters
            (reconfigure-called cli opt s.clients)
          ∙ u cli fresh,
    )

-- A reconfiguration loses the registrations: after any history of calls other than `free` of a map
-- and its adapters that are new, a source that has a client has a new one after a reconfiguration,
-- which knows no object, so that whatever comes in over it goes nowhere, whatever objects are
-- there.
pub registrations_lost :
    (opt : Config) (new_id : ℕ → ℕ) (keep_alive : Bool) (unset : Config)
    (before : List (World × Op)) (w : World) (again : Config) (id : ℕ) (later : Alive) (d : DataPtr)
    (handler : Handler)
    → AllInternal before
    → let s = run before (init new_id keep_alive unset opt) in
      let t = (operate w (reconfigures again) s).0 in
      find id s.clients ≢ null
      → (find id t.clients ≢ null) × (receive later d handler (adapter_of id t) ≡ [])
registrations_lost opt new_id keep_alive unset before w again id later d handler i known =
    let z = init new_id keep_alive unset opt in
    let s = run before z in
    let unheld = run-Unheld before z i (init-Inv opt) (λ c h. unfold Adapter.init in refl) in
    let (there, nobody_there) =
      reconfigure-Unheld w again id s (run-Inv before z i (init-Inv opt)) unheld known in
    (there, receive_nobody later d handler _ nobody_there)
