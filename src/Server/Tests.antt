-- ===== src/Server/Tests.antt =====
-- The theorems on the servers at concrete objects.
use wfc_io.Prelude.{ℕ, ◌≤◌, ◌≡◌, refl, inl, true, false, none, some, List, [], ◌∷◌, arith, length}
use wfc_io.Iface.{Alive, ok, fault, null_pointer}
use wfc_io.Stat.{ConnectionStat, MeterNames}
use wfc_io.Server.Tcp.{
  ServerTcp, ServerConfig, Accepting, restart, start, stop, on_timer, receive, call_handler,
  run_options, run_posted,
}
use wfc_io.Server.Tcp
use wfc_io.Server.Tcp.Restarting.{timer_after_stop, started, stopped}
use wfc_io.Server.Lives.{Session, All, run_sessions}
use wfc_io.Server.Tcp.Sessions.{tcp_runner, Accepts, sessions_balance}
use wfc_io.Server.Udp.{ServerUdp, UdpConfig, initialize}
use wfc_io.Server.Udp as Udp
use wfc_io.Server.Udp.Sessions.{udp_runner, Passes, datagrams_pass}
use wfc_io.Server.Udp.Running as Running

abbrev all : Alive
all n = true

abbrev config : ServerConfig
config = record {
  target = "t";
  rn = true;
  keep_alive = false;
  port = "12345";
  addr = "0.0.0.0";
  reader_sep = "";
  writer_sep = "";
  nonblocking = true;
  input_handler = none;
  connection_target = none;
  registers_threads = false;
}

abbrev names : MeterNames
names = record {
  tracking_ms = 1000;
  connections = ".connections";
  rchunk_count = ".chunk_count:read";
  rchunk_capacity = ".chunk_capacity:read";
  rtotal_size = ".buffer_size:read";
  rtotal_capacity = ".buffer_capacity:read";
  wchunk_count = ".chunk_count:write";
  wchunk_capacity = ".chunk_capacity:write";
  wtotal_size = ".buffer_size:write";
  wtotal_capacity = ".buffer_capacity:write";
}

abbrev no_stat : ConnectionStat
no_stat = record {
  connection_count = 0;
  reader = record { chunk_count = 0; chunk_count_capacity = 0; total_size = 0; total_capacity = 0 };
  writer = record { chunk_count = 0; chunk_count_capacity = 0; total_size = 0; total_capacity = 0 };
}

-- A server 3 runs.
abbrev server : ServerTcp
server = record {
  self = 1;
  name = "io";
  suspended = false;
  has_global = true;
  options = config;
  statistics = some names;
  impl = some 3;
  port = "12345";
  addr = "0.0.0.0";
  target = some 5;
  timer_id = none;
  timers = record { running = []; next = 0 };
  next = 4;
}

timer_after_stop_example :
    let t = (stop (start false server).0).0 in
    (length t.timers.running ≡ 1) × (on_timer all true no_stat t ≡ fault null_pointer)
timer_after_stop_example =
    timer_after_stop all false no_stat names server refl (omega arith) (inl refl) refl

-- A life with a change of the address, whose start throws, and one without changes.
abbrev lives : List (Session ServerConfig)
lives =
    record {
      first_throws = false;
      changes = record { options = record config { addr = "127.0.0.1" }; throws = true } ∷ [];
    }
    ∷ record { first_throws = false; changes = [] }
    ∷ []

sessions_balance_example :
    (t : ServerTcp) × (es : List Tcp.Event) × (run_sessions tcp_runner lives
        (record server { impl = none })
      ≡ ok (t, es))
    × (t.impl ≡ none)
    × ((n : ℕ) → (started n es ≤ 1) × (stopped n es ≡ started n es))
    × All (Accepts (some 5)) es
sessions_balance_example = sessions_balance lives (record server { impl = none }) refl

abbrev udp_config : UdpConfig
udp_config = record {
  target_name = "t";
  rn = true;
  target = none;
  port = "12345";
  addr = "0.0.0.0";
  reader_sep = "";
  writer_sep = "";
  nonblocking = true;
  input_handler = none;
  registers_threads = false;
}

abbrev udp_server : ServerUdp
udp_server = Udp.init 1 false true udp_config false

-- One life, with a restart that throws.
abbrev udp_lives : List (Session UdpConfig)
udp_lives =
    record {
      first_throws = false;
      changes = record { options = record udp_config { port = "1" }; throws = true } ∷ [];
    }
    ∷ []

datagrams_pass_example :
    (t : ServerUdp) × (es : List Udp.Event) × (run_sessions udp_runner udp_lives
        (initialize 7 udp_server).0
      ≡ ok (t, es))
    × (t.impl ≡ none)
    × ((n : ℕ) → (Running.started n es ≤ 1) × (Running.stopped n es ≡ Running.started n es))
    × All (Passes 7) es
unfolding Udp.init
datagrams_pass_example = datagrams_pass 7 udp_lives udp_server refl refl
