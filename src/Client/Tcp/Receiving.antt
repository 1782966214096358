-- ===== src/Client/Tcp/Receiving.antt =====
-- client_tcp.cpp over its map and the adapters: that a source which registers before the start
-- receives what comes in after it.
use mathlib.Core.Path.{subst}
use wfc_io.Prelude.{
  ℕ, suc, ◌<◌, ◌≡◌, sym, ap, ◌∙◌, ◌≢◌, inl, inr, true, false, some, List, [], ◌∷◌, arith, ◌==◌,
  Bool-cases,
}
use wfc_io.Prelude.Dict.{Dict, lookup, insert, From, lookup-insert, insert-From}
use wfc_io.Iface.{WeakPtr, Alive, ok}
use wfc_io.Client.Map.{ClientMap, Op, regs, null}
use wfc_io.Client.Map
use wfc_io.Client.Map.Ownership.{Inv}
use wfc_io.Client.Map.History.{step-Inv}
use wfc_io.Client.Map.Registry.{reg_io_lem}
use wfc_io.Client.Map.Restart.{reconfigure-stop_flag}
use wfc_io.Client.System.{World, Store, System, drive, operate, run}
use wfc_io.Client.System.Isolation.{AllForeign}
use wfc_io.Client.System.Binding.{Bound, Bound-Delivers, regs-Bound, run-Bound}
use wfc_io.Client.System.Binding.{Delivers, adapter_of}
use wfc_io.Client.Tcp.{ClientTcp, Event, reg_io, restart, client_options}
use wfc_io.Client.Tcp.Driving.{map_events, registrations, system, restart-Starts}
use wfc_io.Client.Tcp.Waiting.{Ready, map-reconfigure-Inv, reg_io-waits}

registrations-Foreign :
    (w : World) (id l : ℕ) (ws : Dict WeakPtr)
    → id < l
    → From l ws
    → AllForeign id (registrations w ws)
registrations-Foreign w id l [] h f = tt
registrations-Foreign w id l ((j, itf) ∷ ws) h f =
    (omega arith, registrations-Foreign w id (suc j) ws (omega arith) f.1)

regs-Inv :
    (w : World) (id : ℕ) (itf : WeakPtr) (s : System)
    → Inv s.clients
    → Inv (operate w (regs id itf) s).0.clients
unfolding operate
regs-Inv w id itf s v = step-Inv (regs id itf) s.clients tt v

regs-stop_flag :
    (w : World) (id : ℕ) (itf : WeakPtr) (s : System)
    → Inv s.clients
    → s.clients.stop_flag ≡ false
    → (operate w (regs id itf) s).0.clients.stop_flag ≡ false
unfolding operate Map.step
regs-stop_flag w id itf s v on = (reg_io_lem id id itf s.clients v on).3

first-Bound :
    (w : World) (id n : ℕ) (ws : Dict WeakPtr) (s : System)
    → Inv s.clients
    → s.clients.stop_flag ≡ false
    → From (suc id) ws
    → Bound id n (run (registrations w ((id, some n) ∷ ws)) s)
unfolding run
first-Bound w id n ws s v on f =
    run-Bound (registrations w ws) id n (operate w (regs id (some n)) s).0
      (regs-Inv w id (some n) s v) (regs-Bound w id n s v on)
      (registrations-Foreign w id (suc id) ws (omega arith) f)

-- Each source that waits is served.
registrations-Bound :
    (w : World) (id n l : ℕ) (ws : Dict WeakPtr) (s : System)
    → Inv s.clients
    → s.clients.stop_flag ≡ false
    → From l ws
    → lookup id ws ≡ some (some n)
    → Bound id n (run (registrations w ws) s)
unfolding run lookup
registrations-Bound w id n l [] s v on f found = absurd (ground arith)
registrations-Bound w id n l ((j, itf) ∷ ws) s v on f found = elim (Bool-cases (j == id)) [
  | inl own ↦
      let e : id ≡ j = ground arith in
      let g : some n ≡ itf = ground arith in
      let others : From (suc id) ws = subst (λ k. From (suc k) ws) (sym e) f.1 in
      subst (λ k. Bound id n (run (registrations w ((k, itf) ∷ ws)) s)) e
        (subst (λ x. Bound id n (run (registrations w ((id, x) ∷ ws)) s)) g
          (first-Bound w id n ws s v on others))
  | inr other ↦
      registrations-Bound w id n (suc j) ws (operate w (regs j itf) s).0 (regs-Inv w j itf s v)
        (regs-stop_flag w j itf s v on) f.1 (rw other at found)
]

pub waiting-Bound :
    (w : World) (id n : ℕ) (st : Store) (c : ClientTcp) (m : ClientMap)
    → Ready c m
    → c.client_started ≡ false
    → From 0 c.wait_list
    → lookup id c.wait_list ≡ some (some n)
    → (d : ClientTcp) × (es : List Event) × (t : System) × (restart c ≡ ok (d, es))
      × (d.client_map ≡ some t.clients)
      × ((drive w (map_events es) st).0 ≡ t.adapters)
      × Bound id n t
waiting-Bound w id n st c m r off f found =
    let s = restart-Starts w st c m r off in
    let (m1, es1) = Map.reconfigure_and_start (client_options c.options) m in
    let begun = system m1 (drive w es1 st).0 in
    (
      s.after,
      s.events,
      run (registrations w c.wait_list) begun,
      s.restarts,
      s.has_map,
      s.drives,
      registrations-Bound w id n 0 c.wait_list begun
          (map-reconfigure-Inv (client_options c.options) m r.inv)
          (reconfigure-stop_flag (client_options c.options) m) f found,
    )

-- A source that registers before the start receives what comes in after it: with an object that is
-- not suspended, has not started, holds the sources that wait in order, and has a map that holds no
-- client twice, a start after `reg_io` of a source's object returns. The source has a client in the
-- map that the component then has; and if the events of the start drive the adapters, whatever they
-- were and whatever the TCP clients do meanwhile, what comes in over the adapter of that client
-- goes to the source's object alone, while it is there, under the number of the adapter. Without
-- keep-alive the handler of the connection, if there is one, is first called with no data, which
-- closes the connection, and the object answers through the adapter.
pub early_source_receives :
    (w : World) (later : Alive) (id n : ℕ) (st : Store) (c : ClientTcp) (m : ClientMap)
    → Ready c m
    → c.client_started ≡ false
    → From 0 c.wait_list
    → later n ≡ true
    → (d : ClientTcp) × (es : List Event) × (t : System) × (restart (reg_io id (some n) c).0
        ≡ ok (d, es))
      × (d.client_map ≡ some t.clients)
      × ((drive w (map_events es) st).0 ≡ t.adapters)
      × (Map.find id t.clients ≢ null)
      × Delivers later n (adapter_of id t)
early_source_receives w later id n st c m r off f there =
    let kept = reg_io-waits id (some n) c m r off in
    let c1 = record c { wait_list = insert id (some n) c.wait_list } in
    let r1 : Ready c1 m = record { has_map = r.has_map; active = r.active; inv = r.inv } in
    let found : lookup id c1.wait_list ≡ some (some n) =
      ground (arith, lookup-insert id id (some n) c.wait_list) in
    let (d, es, t, e, a, b, served) =
      waiting-Bound w id n st c1 m r1 off (insert-From id 0 (some n) c.wait_list (omega arith) f)
        found in
    (d, es, t, ap restart kept ∙ e, a, b, served.0, Bound-Delivers later id n t served there)
