-- ===== src/Proxy/Tests.antt =====
-- The theorems on a server_tcp in front of a client_tcp at a concrete history.
use wfc_io.Prelude.{
  ℕ, ◌+◌, ◌≡◌, refl, ◌≢◌, true, false, none, some, not, List, [], ◌∷◌, map, arith, ◌==◌,
  if◌then◌else◌,
}
use wfc_io.Iface.{empty, ok}
use wfc_io.Client.Options.{Config, default_config}
use wfc_io.Client.Map.{ClientMap, find, null}
use wfc_io.Client.Adapter
use wfc_io.Client.System.{World, Store, Output}
use wfc_io.Client.System.Binding.{adapter_of}
use wfc_io.Client.Tcp.Driving.{system}
use wfc_io.Client.Tcp.Component.{Component, restarts, serve, run}
use wfc_io.Client.Tcp.Component.Starting.{made}
use wfc_io.Client.Tcp.Component.Beginning.{Begun, made-Begun}
use wfc_io.Server.Tcp.{ServerTcp, ServerConfig}
use wfc_io.Proxy.{Happening, opens, comes, ends, Front, happen, history, outgoing}
use wfc_io.Proxy.Requesting.{PassesOn, Fronts, AllThere, request}
use wfc_io.Proxy.Replying.{AllStay, proxied}
use wfc_io.Proxy.Directly.{FrontsDirectly, heard_after, direct_keeps}
use wfc_io.Proxy.Opening.{AllOrderly, open_after, clients_are_open}

abbrev config : ServerConfig
config = record {
  target = "t";
  rn = true;
  keep_alive = false;
  port = "12345";
  addr = "0.0.0.0";
  reader_sep = "";
  writer_sep = "";
  nonblocking = true;
  input_handler = none;
  connection_target = none;
  registers_threads = false;
}

-- Its target has the number 5.
abbrev server : ServerTcp
server = record {
  self = 1;
  name = "io";
  suspended = false;
  has_global = true;
  options = config;
  statistics = none;
  impl = some 3;
  port = "12345";
  addr = "0.0.0.0";
  target = some 5;
  timer_id = none;
  timers = record { running = []; next = 0 };
  next = 4;
}

abbrev front : Front
front = record {
  server = server;
  connection = record {
    target = none;
    direct_mode = false;
    startup_handler = none;
    shutdown_handler = none;
  };
  startup = none;
  shutdown = none;
  passes_on = λ suspended r. if suspended then [] else r ∷ [];
}

passes : PassesOn 5 front
passes = record { target = refl; active = refl; all = λ r. refl }

fronts : Fronts 5 front
fronts = record { passing = passes; registers_connections = refl }

abbrev options : Config
options = default_config "localhost" "12345" "" ""

-- All objects are there, every message is sent and nothing throws.
abbrev quiet : World
quiet = record {
  alive = λ n. true;
  wire = λ cli. record { send = λ d. none; send_anew = λ d opt. none };
  throws = λ cli. false;
}

abbrev adapters : Store
adapters = λ cli. Adapter.init cli (100 + cli) true options

abbrev new_one : Component
new_one = made "client-tcp1" false options none options adapters

-- The component after its start.
abbrev component : Component
component = (made-Begun quiet "client-tcp1" options none options adapters).0

begun : Begun component
begun = (made-Begun quiet "client-tcp1" options none options adapters).3

component_run : run ((quiet, restarts) ∷ []) new_one ≡ ok component
unfolding run
component_run = rw (made-Begun quiet "client-tcp1" options none options adapters).2

-- Connection 80 begins and ends, while connection 70 gets data.
abbrev after : List (World × Happening)
after =
    (quiet, opens 80 8)
    ∷ (quiet, comes 7 (some []) 1)
    ∷ (quiet, comes 8 (some []) 2)
    ∷ (quiet, ends 80 8)
    ∷ []

abbrev all : List (World × Happening)
all = (quiet, opens 70 7) ∷ after

there : AllThere 5 all
there = (refl, (refl, (refl, (refl, (refl, tt)))))

stays : AllStay 7 70 after
stays = (omega arith, (λ e. refl, (λ e. refl, (omega arith, tt))))

orderly : AllOrderly (λ _. false) all
orderly = (tt, (tt, (refl, (refl, (tt, tt)))))

proxied_example :
    (d : Component) × (m : ClientMap) × (history 5 front all component ≡ ok d)
    × (d.tcp.client_map ≡ some m)
    × (find 7 m ≢ null)
    × (next : Component) × (es : List Adapter.Event) × (happen 5 front quiet
          (comes 7 (some (1 ∷ [])) 3)
          d
        ≡ ok next)
    × (serve quiet (request front (comes 7 (some (1 ∷ [])) 3)) d
        ≡ ok (next, map (λ e. (find 7 m, e)) (Adapter.sends (some (1 ∷ [])) ∷ es)))
    × (outgoing
          (Adapter.receive (λ n. true) (some (2 ∷ [])) empty (adapter_of 7 (system m d.adapters)))
        ≡ (70, some (2 ∷ [])) ∷ [])
proxied_example =
    proxied "client-tcp1" false options none options adapters ((quiet, restarts) ∷ []) component
      component_run 5 front 7 70 quiet quiet after (λ n. true) (some (1 ∷ [])) (some (2 ∷ [])) 3
      empty fronts there stays begun.active begun.started (omega arith) refl refl

clients_are_open_example :
    (c : Component) × (os : Output) × (serve quiet restarts new_one ≡ ok (c, os))
    × (d : Component) × (m : ClientMap) × (history 5 front all c ≡ ok d)
    × (d.tcp.client_map ≡ some m)
    × ((id : ℕ) → (find id m == null) ≡ not (open_after (λ _. false) all id))
clients_are_open_example =
    clients_are_open 5 front quiet "client-tcp1" options none options adapters all fronts there
      orderly

-- The same, in direct mode.
abbrev direct_front : Front
direct_front = record front {
  connection = record {
    target = none;
    direct_mode = true;
    startup_handler = none;
    shutdown_handler = none;
  };
}

fronts_directly : FrontsDirectly 5 direct_front
fronts_directly = record {
  passing = record { target = refl; active = refl; all = λ r. refl };
  direct = refl;
  at_begin = refl;
  at_end = refl;
}

direct_keeps_example :
    (c : Component) × (os : Output) × (serve quiet restarts new_one ≡ ok (c, os))
    × (d : Component) × (m : ClientMap) × (history 5 direct_front all c ≡ ok d)
    × (d.tcp.client_map ≡ some m)
    × ((id : ℕ) → (find id m == null) ≡ not (heard_after (λ _. false) all id))
direct_keeps_example =
    direct_keeps 5 direct_front quiet "client-tcp1" options none options adapters all
      fronts_directly
