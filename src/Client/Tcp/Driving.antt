-- ===== src/Client/Tcp/Driving.antt =====
-- What a start of client_tcp.cpp does to the map and, by its events, to the adapters.
use mathlib.Core.List.{append-nil}
use wfc_io.Prelude.{
  ℕ, ◌≡◌, refl, ap, ◌∙◌, inl, inr, true, false, some, List, [], ◌∷◌, ◌++◌, map, Bool-cases,
  Option-cases, String, ltb,
}
use wfc_io.Prelude.Dict.{Dict}
use wfc_io.Iface.{WeakPtr, ok}
use wfc_io.Stat.{meter_names}
use wfc_io.Client.Map.{ClientMap, Op, regs, null}
use wfc_io.Client.Map
use wfc_io.Client.Map.Restart.{reconfigure-stop_flag}
use wfc_io.Client.System.{World, Store, System, drive, operate, run}
use wfc_io.Client.System.Isolation.{drive-append}
use wfc_io.Client.Tcp.{
  ClientTcp, Event, client, invokes, fatal, meter, timer, values, reg_io, reg_waiting,
  start_waiting, start_meters, configure_map, reconfigure_and_start, restart, client_options,
}
use wfc_io.Client.Tcp.Waiting.{Ready, Running, reg_io-Running, map-reconfigure-Inv}

-- What the events of the component do to the clients of its map.
abbrev pub map_events : List Event → List Map.Event
map_events [] = []
map_events (client e ∷ es) = e ∷ map_events es
map_events (e ∷ es) = map_events es

map_events-append : (es fs : List Event) → map_events (es ++ fs) ≡ map_events es ++ map_events fs
map_events-append [] fs = refl
map_events-append (client e ∷ es) fs = ap (◌∷◌ e) (map_events-append es fs)
map_events-append (invokes h d ∷ es) fs = map_events-append es fs
map_events-append (fatal ∷ es) fs = map_events-append es fs
map_events-append (meter s ∷ es) fs = map_events-append es fs
map_events-append (timer n ∷ es) fs = map_events-append es fs
map_events-append (values ns ∷ es) fs = map_events-append es fs

pub map_events-client : (es : List Map.Event) → map_events (map client es) ≡ es
map_events-client [] = refl
map_events-client (e ∷ es) = ap (◌∷◌ e) (map_events-client es)

-- The registrations of the sources that wait, as operations of the map.
abbrev pub registrations : World → Dict WeakPtr → List (World × Op)
registrations w [] = []
registrations w ((id, itf) ∷ ws) = (w, regs id itf) ∷ registrations w ws

-- The component over the adapters of its map.
abbrev pub system : ClientMap → Store → System
system m st = record { clients = m; adapters = st }

map_events-reg_io :
    (id : ℕ) (itf : WeakPtr) (c : ClientTcp) (m : ClientMap)
    → Running c m
    → map_events (reg_io id itf c).1 ≡ (Map.reg_io id itf m).1
unfolding reg_io
map_events-reg_io id itf c m r =
    rw r.ready.has_map (rw (r.ready.active, r.started) (map_events-client (Map.reg_io id itf m).1))

-- The component's registrations are those of the map over its adapters.
reg_waiting-run :
    (w : World) (ws : Dict WeakPtr) (c : ClientTcp) (m : ClientMap) (st : Store)
    → Running c m
    → let r = reg_waiting ws c in
      let t = run (registrations w ws) (system m st) in
      (r.0.client_map ≡ some t.clients) × ((drive w (map_events r.1) st).0 ≡ t.adapters)
unfolding reg_waiting run operate Map.step
reg_waiting-run w [] c m st r = (r.ready.has_map, unfold drive in refl)
reg_waiting-run w ((id, itf) ∷ ws) c m st r =
    let m' = (Map.reg_io id itf m).0 in
    let st' = (drive w (Map.reg_io id itf m).1 st).0 in
    let (a, b) = reg_waiting-run w ws (reg_io id itf c).0 m' st' (reg_io-Running id itf c m r) in
    let es = (Map.reg_io id itf m).1 in
    let fs = map_events (reg_waiting ws (reg_io id itf c).0).1 in
    (
      a,
      ap (λ gs. (drive w gs st).0)
            (map_events-append (reg_io id itf c).1 (reg_waiting ws (reg_io id itf c).0).1
              ∙ ap (λ gs. gs ++ fs) (map_events-reg_io id itf c m r))
          ∙ drive-append w es fs st
          ∙ b,
    )

map_events-meters :
    (names : List String) (n : ℕ) → map_events (map meter names ++ timer n ∷ []) ≡ []
map_events-meters [] n = refl
map_events-meters (s ∷ names) n = map_events-meters names n

start_meters-quiet :
    (c : ClientTcp)
    → ((start_meters c).0.client_map ≡ c.client_map) × (map_events (start_meters c).1 ≡ [])
unfolding start_meters
start_meters-quiet c = elim (Option-cases c.statistics) [
  | inl off ↦ rw off (refl, refl)
  | inr (s, on) ↦ rw on (elim (Bool-cases (ltb 0 s.names.tracking_ms)) [
    | inl timed ↦
        rw timed (refl, map_events-meters (meter_names c.name s.names) s.names.tracking_ms)
    | inr untimed ↦ rw untimed (refl, refl)
  ])
]

map_events-start :
    (es : List Map.Event) (fs gs : List Event)
    → map_events gs ≡ []
    → map_events (map client es ++ fs ++ gs) ≡ es ++ map_events fs
map_events-start es fs gs none_there =
    map_events-append (map client es ++ fs) gs
    ∙ ap (λ hs. map_events (map client es ++ fs) ++ hs) none_there
    ∙ append-nil (map_events (map client es ++ fs))
    ∙ map_events-append (map client es) fs
    ∙ ap (λ hs. hs ++ map_events fs) (map_events-client es)

-- What a start of an object that waits comes to.
pub record Starts (w : World) (st : Store) (c : ClientTcp) (m : ClientMap) : Type 0 where
  pub after : ClientTcp
  pub events : List Event
  pub restarts : restart c ≡ ok (after, events)
  pub has_map :
      let (m1, es) = Map.reconfigure_and_start (client_options c.options) m in
      after.client_map
      ≡ some (run (registrations w c.wait_list) (system m1 (drive w es st).0)).clients
  pub drives :
      let (m1, es) = Map.reconfigure_and_start (client_options c.options) m in
      (drive w (map_events events) st).0
      ≡ (run (registrations w c.wait_list) (system m1 (drive w es st).0)).adapters

pub restart-Starts :
    (w : World) (st : Store) (c : ClientTcp) (m : ClientMap)
    → Ready c m
    → c.client_started ≡ false
    → Starts w st c m
unfolding restart reconfigure_and_start configure_map start_waiting
restart-Starts w st c m r off =
    let (m1, es1) = Map.reconfigure_and_start (client_options c.options) m in
    let c1 = record c { client_map = some m1; client_started = true } in
    let running : Running c1 m1 = record {
      ready = record {
        has_map = refl;
        active = r.active;
        inv = map-reconfigure-Inv (client_options c.options) m r.inv;
      };
      started = refl;
      open_map = reconfigure-stop_flag (client_options c.options) m;
    } in
    let (c2, es2) = reg_waiting c.wait_list c1 in
    let (a, b) = reg_waiting-run w c.wait_list c1 m1 (drive w es1 st).0 running in
    let q = start_meters-quiet c2 in
    record {
      after = (start_meters c2).0;
      events = map client es1 ++ es2 ++ (start_meters c2).1;
      restarts = rw (r.has_map, configure_map, off);
      has_map = q.0 ∙ a;
      drives =
          ap (λ gs. (drive w gs st).0) (map_events-start es1 es2 (start_meters c2).1 q.1)
          ∙ drive-append w es1 (map_events es2) st
          ∙ b;
    }
