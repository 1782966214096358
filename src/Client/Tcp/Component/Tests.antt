-- ===== src/Client/Tcp/Component/Tests.antt =====
-- The theorems on the component `client-tcp` at a concrete history.
use wfc_io.Prelude.{◌+◌, ◌≡◌, refl, true, false, none, some, List, [], ◌∷◌, arith}
use wfc_io.Iface.{empty, Result, ok, fault}
use wfc_io.Client.Options.{Config, default_config}
use wfc_io.Client.Adapter
use wfc_io.Client.System.{World, Store}
use wfc_io.Client.Tcp.{
  init, initialize, restart, reconfigure_and_start, configure_map, start_waiting, start_meters,
  reg_waiting, reg_io, unreg_io, perform_io, stop,
}
use wfc_io.Client.Tcp.Component.{
  Component, Request, configures, restarts, stops, regs, unregs, sends, handle, serve, run,
}
use wfc_io.Client.Tcp.Component.Reaching.{Reaches}
use wfc_io.Client.Tcp.Component.Serving.{AllSpare}
use wfc_io.Client.Tcp.Component.Starting.{
  made, Receives, running_source_served, waiting_source_served,
}

abbrev options : Config
options = default_config "localhost" "12345" "" ""

-- All objects are there, every message is sent and nothing throws.
abbrev quiet : World
quiet = record {
  alive = λ n. true;
  wire = λ cli. record { send = λ d. none; send_anew = λ d opt. none };
  throws = λ cli. false;
}

abbrev adapters : Store
adapters = λ cli. Adapter.init cli (100 + cli) true options

abbrev new_one : Component
new_one = made "client-tcp1" false options none options adapters

abbrev value_or : Component → Result Component → Component
value_or c (ok d) = d
value_or c (fault e) = c

-- It has started, and source 8 sent a message.
abbrev first : List (World × Request)
first = (quiet, restarts) ∷ (quiet, sends (some []) 8 empty) ∷ []

abbrev running : Component
running = value_or new_one (run first new_one)

-- Source 8 leaves, the component is suspended for a while, and source 7 sends.
abbrev later : List (World × Request)
later =
    (quiet, unregs 8)
    ∷ (quiet, configures options true)
    ∷ (quiet, regs 9 (some 90))
    ∷ (quiet, configures options false)
    ∷ (quiet, sends (some []) 7 empty)
    ∷ []

kept : AllSpare 7 70 later
kept = (omega arith, (tt, (omega arith, (tt, (λ e. refl, tt)))))

running_lem :
    (run first new_one ≡ ok running)
    × (running.tcp.suspended ≡ false)
    × (running.tcp.client_started ≡ true)
unfolding run serve handle made init initialize restart reconfigure_and_start configure_map
    start_waiting start_meters reg_waiting perform_io
running_lem = (refl, refl, refl)

running_source_served_example :
    Reaches ((quiet, regs 7 (some 70)) ∷ later) running (Receives (λ n. true) 7 70)
running_source_served_example =
    running_source_served "client-tcp1" false options none options adapters first running
      running_lem.0 quiet (λ n. true) 7 70 refl (omega arith) later running_lem.1 running_lem.2 kept

-- It has been stopped again.
abbrev second : List (World × Request)
second = (quiet, restarts) ∷ (quiet, stops) ∷ []

abbrev stopped : Component
stopped = value_or new_one (run second new_one)

abbrev waiting : Component
waiting = value_or new_one (run ((quiet, regs 7 (some 70)) ∷ later) stopped)

stopped_lem :
    (run second new_one ≡ ok stopped)
    × (stopped.tcp.suspended ≡ false)
    × (stopped.tcp.client_started ≡ false)
    × (run ((quiet, regs 7 (some 70)) ∷ later) stopped ≡ ok waiting)
    × (waiting.tcp.suspended ≡ false)
unfolding run serve handle made init initialize restart reconfigure_and_start configure_map
    start_waiting start_meters reg_waiting stop reg_io unreg_io perform_io
stopped_lem = (refl, refl, refl, refl, refl)

waiting_source_served_example :
    Reaches ((quiet, restarts) ∷ later) waiting (Receives (λ n. true) 7 70)
waiting_source_served_example =
    waiting_source_served "client-tcp1" false options none options adapters second stopped
      stopped_lem.0 quiet (λ n. true) 7 70 refl (omega arith) later later quiet waiting
      stopped_lem.1 stopped_lem.2 kept stopped_lem.3 stopped_lem.4 kept
