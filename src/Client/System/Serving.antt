-- ===== src/Client/System/Serving.antt =====
-- Who receives what a server sends to a source that registered with a client_tcp_map.
use wfc_io.Prelude.{ℕ, ◌≡◌, Bool, true, false, some, List, [], ◌∷◌}
use wfc_io.Iface.{Alive}
use wfc_io.Client.Options.{Config}
use wfc_io.Client.Map.{Op, regs}
use wfc_io.Client.Map.Ownership.{Inv}
use wfc_io.Client.Map.History.{IsInternal, step-Inv, init-Inv}
use wfc_io.Client.System.{World, System, init, operate, run}
use wfc_io.Client.System.Binding.{Delivers, adapter_of, Bound-Delivers, regs-Bound, run-Bound}
use wfc_io.Client.System.Isolation.{AllForeign}

abbrev pub AllInternal : List (World × Op) → Type 0
AllInternal [] = Unit
AllInternal ((w, op) ∷ ops) = IsInternal op × AllInternal ops

pub run-Inv :
    (ops : List (World × Op)) (s : System)
    → AllInternal ops
    → Inv s.clients
    → Inv (run ops s).clients
unfolding run operate
run-Inv [] s i v = v
run-Inv ((w, op) ∷ ops) s i v = run-Inv ops (operate w op s).0 i.1 (step-Inv op s.clients i.0 v)

-- A source that registers is served: after any history of calls other than `free` of a map and its
-- adapters that are new, if the map runs when a source registers an object, then whatever other
-- sources ask for later, and whatever the TCP clients do meanwhile, what comes in over the client
-- of the source goes to that object alone while it is there, under the number of the adapter.
-- Without keep-alive the handler of the connection, if there is one, is first called with no data,
-- which closes the connection, and the object answers through the adapter.
pub registered_receives :
    (opt : Config) (new_id : ℕ → ℕ) (keep_alive : Bool) (unset : Config)
    (before after : List (World × Op)) (w : World) (later : Alive) (id n : ℕ)
    → AllInternal before
    → AllForeign id after
    → later n ≡ true
    → let s = run before (init new_id keep_alive unset opt) in
      let t = run after (operate w (regs id (some n)) s).0 in
      s.clients.stop_flag ≡ false → Delivers later n (adapter_of id t)
registered_receives opt new_id keep_alive unset before after w later id n i k there running =
    let s = run before (init new_id keep_alive unset opt) in
    let v = run-Inv before (init new_id keep_alive unset opt) i (init-Inv opt) in
    let t = (operate w (regs id (some n)) s).0 in
    let vt : Inv t.clients = unfold operate in step-Inv (regs id (some n)) s.clients tt v in
    let bound = run-Bound after id n t vt (regs-Bound w id n s v running) k in
    Bound-Delivers later id n (run after t) bound there
