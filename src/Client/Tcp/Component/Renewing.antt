-- ===== src/Client/Tcp/Component/Renewing.antt =====
-- What starts and restarts of the component `client-tcp` keep, and so every request.
use wfc_io.Prelude.{
  ◌≡◌, refl, inl, inr, true, false, some, List, [], ◌∷◌, ◌++◌, map, arith, Bool-cases, not, ◌&&◌,
}
use text.Mathlib.Text.{◌==◌ as str_eq}
use wfc_io.Iface.{ok}
use wfc_io.Client.Map.{ClientMap, Op, stopped, step}
use wfc_io.Client.Map
use wfc_io.Client.Map.Restart.{reconfigure-stop_flag}
use wfc_io.Client.Tcp.{
  ClientTcp, Event, client, fatal, restart, start, reg_waiting, start_waiting, start_meters,
  configure_map, reconfigure_and_start, client_options,
}
use wfc_io.Client.Tcp.Component.{
  Request, configures, starts, restarts, stops, regs, unregs, sends, handle,
}
use wfc_io.Client.Tcp.Waiting.{map-reconfigure-Inv}
use wfc_io.Client.Tcp.Component.Lasting.{
  Sound, IsSound, configured-Sound, reg_io-IsSound, unreg_io-IsSound, perform_io-IsSound,
  stop-IsSound, reg_waiting-IsSound,
}

start_waiting_done : (c : ClientTcp) → c.client_started ≡ true → start_waiting c ≡ (c, [])
unfolding start_waiting
start_waiting_done c on = ground arith

pub start_waiting_runs :
    (c : ClientTcp)
    → c.client_started ≡ false
    → start_waiting c ≡ reg_waiting c.wait_list (record c { client_started = true })
unfolding start_waiting
start_waiting_runs c off = ground arith

begun-Sound :
    (c : ClientTcp) (m : ClientMap)
    → Sound c m
    → m.stop_flag ≡ false
    → Sound (record c { client_started = true }) m
begun-Sound c m s on = record {
  has_map = s.has_map;
  inv = s.inv;
  open_map = λ _. on;
  ordered = s.ordered;
}

start_waiting-IsSound :
    (c : ClientTcp) (m : ClientMap) → Sound c m → m.stop_flag ≡ false → IsSound (start_waiting c).0
start_waiting-IsSound c m s on = elim (Bool-cases c.client_started) [
  | inl started ↦ rw (start_waiting_done c started) (m, s)
  | inr waits ↦ rw (start_waiting_runs c waits) (
      reg_waiting-IsSound c.wait_list (record c { client_started = true })
        (m, begun-Sound c m s on))
]

start_meters-IsSound : (c : ClientTcp) → IsSound c → IsSound (start_meters c).0
unfolding start_meters
start_meters-IsSound c (m, s) = (
  m,
  record {
    has_map = ground (arith, s.has_map);
    inv = s.inv;
    open_map = ground (arith, s.open_map);
    ordered = ground (arith, s.ordered);
  },
)

reconfigure-IsSound :
    (c : ClientTcp)
    → IsSound c
    → (d : ClientTcp) × (es : List Event) × (reconfigure_and_start c ≡ ok (d, es)) × IsSound d
unfolding reconfigure_and_start configure_map
reconfigure-IsSound c (m, s) =
    let (m1, es1) = Map.reconfigure_and_start (client_options c.options) m in
    let c1 = record c { client_map = some m1 } in
    let on = reconfigure-stop_flag (client_options c.options) m in
    let s1 : Sound c1 m1 = record {
      has_map = refl;
      inv = map-reconfigure-Inv (client_options c.options) m s.inv;
      open_map = λ _. on;
      ordered = s.ordered;
    } in
    let (c2, es2) = start_waiting c1 in
    let (c3, es3) = start_meters c2 in
    (
      c3,
      map client es1 ++ es2 ++ es3,
      rw (s.has_map, configure_map),
      start_meters-IsSound c2 (start_waiting-IsSound c1 m1 s1 on),
    )

start-IsSound :
    (c : ClientTcp)
    → IsSound c
    → (d : ClientTcp) × (es : List Event) × (start c ≡ ok (d, es)) × IsSound d
unfolding start
start-IsSound c s = elim (Bool-cases (not c.suspended && str_eq c.options.addr "")) [
  | inl refused ↦ rw refused (c, fatal ∷ [], refl, s)
  | inr runs ↦ rw runs (reconfigure-IsSound c s)
]

-- Every request returns, and keeps the component sound.
pub handle-IsSound :
    (r : Request) (c : ClientTcp)
    → IsSound c
    → (d : ClientTcp) × (es : List Event) × (handle r c ≡ ok (d, es)) × IsSound d
unfolding handle restart
handle-IsSound (configures opt suspended) c (m, s) =
    (_, [], refl, (m, configured-Sound opt suspended c m s))
handle-IsSound starts c s = start-IsSound c s
handle-IsSound restarts c s = reconfigure-IsSound c s
handle-IsSound stops c s = (_, _, refl, stop-IsSound c s)
handle-IsSound (regs id itf) c s = (_, _, refl, reg_io-IsSound id itf c s)
handle-IsSound (unregs id) c s = (_, _, refl, unreg_io-IsSound id c s)
handle-IsSound (sends d id handler) c s = (_, _, refl, perform_io-IsSound d id handler c s)
