-- ===== src/Client/Tcp/Component/Beginning.antt =====
-- The component `client-tcp` right after its first start.
use mathlib.Core.Path.{subst}
use wfc_io.Prelude.{ℕ, ◌≡◌, refl, sym, ap, ◌∙◌, false, true, Option, String}
use wfc_io.Prelude.Dict.{From}
use wfc_io.Client.Options.{Config}
use wfc_io.Client.Map.{ClientMap, find, null}
use wfc_io.Client.Map
use wfc_io.Client.Map.History.{init-Inv}
use wfc_io.Client.Map.Restart.{find-init, reconfigure_replaces}
use wfc_io.Client.System.{World, Store, drive, run}
use wfc_io.Client.Tcp.{Statistics, client_options}
use wfc_io.Client.Tcp.Driving.{map_events, restart-Starts}
use wfc_io.Client.Tcp.Waiting.{Ready, restart-Started}
use wfc_io.Client.Tcp.Component.{Component, restarts, handle, serve}
use wfc_io.Client.Tcp.Component.Lasting.{Sound}
use wfc_io.Client.Tcp.Component.Reaching.{Answers}
use wfc_io.Client.Tcp.Component.Starting.{made}

-- It runs, and no source has a client.
pub record Begun (c : Component) : Type 0 where
  pub map_now : ClientMap
  pub sound : Sound c.tcp map_now
  pub started : c.tcp.client_started ≡ true
  pub active : c.tcp.suspended ≡ false
  pub nobody : (id : ℕ) → find id map_now ≡ null

find-reconfigured :
    (opt default : Config) (id : ℕ)
    → find id (Map.reconfigure_and_start opt (Map.init default)).0 ≡ null
find-reconfigured opt default id =
    (reconfigure_replaces opt (Map.init default) null id (init-Inv default)).2.0
      (find-init default id)

pub made-Begun :
    (w : World) (name : String) (options : Config) (statistics : Option Statistics)
    (default : Config) (st : Store)
    → Answers w restarts (made name false options statistics default st) Begun
unfolding serve handle made run
made-Begun w name options statistics default st =
    let c = (made name false options statistics default st).tcp in
    let ready : Ready c (Map.init default) = record {
      has_map = refl;
      active = refl;
      inv = init-Inv default;
    } in
    let s = restart-Starts w st c (Map.init default) ready refl in
    let (tcp, es, e, u) = restart-Started c (Map.init default) ready refl in
    let same : tcp ≡ s.after = cc (s.restarts) in
    let m = (Map.reconfigure_and_start (client_options options) (Map.init default)).0 in
    let q : u.map_after ≡ m = cc (u.running.ready.has_map, s.has_map) in
    (
      record { tcp = tcp; adapters = (drive w (map_events es) st).0 },
      (drive w (map_events es) st).1,
      rw e,
      record {
        map_now = u.map_after;
        sound = record {
          has_map = u.running.ready.has_map;
          inv = u.running.ready.inv;
          open_map = λ _. u.running.open_map;
          ordered = subst (λ ws. From 0 ws) (sym u.same) tt;
        };
        started = u.running.started;
        active = u.running.ready.active;
        nobody = λ id. ap (find id) q ∙ find-reconfigured (client_options options) default id;
      },
    )
