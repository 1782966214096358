-- ===== src/Client/Tcp/Tests.antt =====
-- The theorems on client_tcp.cpp at a concrete object.
use wfc_io.Prelude.{◌+◌, ◌≡◌, refl, ◌≢◌, false, none, some, List, arith}
use wfc_io.Prelude.Dict.{lookup, insert}
use wfc_io.Iface.{ok}
use wfc_io.Client.Options.{Config, default_config}
use wfc_io.Client.Map
use wfc_io.Client.Map.{null}
use wfc_io.Client.Map.History.{init-Inv}
use wfc_io.Client.Tcp.{
  ClientTcp, Event, Statistics, init, initialize, reg_io, unreg_io, stop, restart,
}
use wfc_io.Client.Tcp.Waiting.{Ready, Serves}
use wfc_io.Client.Tcp.Leaving.{left_source_returns}
use wfc_io.Client.Tcp.Timers.{restarts, restarts-timers}

abbrev options : Config
options = default_config "localhost" "12345" "" ""

abbrev statistics : Statistics
statistics = record {
  names = record {
    tracking_ms = 1000;
    connections = ".connections";
    rchunk_count = ".chunk_count:read";
    rchunk_capacity = ".chunk_capacity:read";
    rtotal_size = ".buffer_size:read";
    rtotal_capacity = ".buffer_capacity:read";
    wchunk_count = ".chunk_count:write";
    wchunk_capacity = ".chunk_capacity:write";
    wtotal_size = ".buffer_size:write";
    wtotal_capacity = ".buffer_capacity:write";
  };
}

abbrev created : ClientTcp
created = initialize options (init "client-tcp1" false options (some statistics))

-- Source 7 registers before the start.
abbrev waiting : ClientTcp
waiting = (reg_io 7 (some 3) created).0

waiting-Ready : Ready waiting (Map.init options)
unfolding init initialize reg_io
waiting-Ready = record { has_map = refl; active = refl; inv = init-Inv options }

not_started : waiting.client_started ≡ false
unfolding init initialize reg_io
not_started = refl

waits : lookup 7 waiting.wait_list ≡ some (some 3)
unfolding init initialize reg_io insert lookup
waits = refl

left_source_returns_example :
    (d : ClientTcp) × (es : List Event) × (restart waiting ≡ ok (d, es))
    × (e : ClientTcp) × (fs : List Event) × (restart (stop (unreg_io 7 d).0).0 ≡ ok (e, fs))
    × Serves 7 e
left_source_returns_example =
    left_source_returns 7 (some 3) waiting (Map.init options) waiting-Ready not_started waits

has_map : created.client_map ≢ none
unfolding init initialize
has_map e = cc

has_statistics : created.statistics ≡ some statistics
unfolding init initialize
has_statistics = refl

restarts-timers_example :
    (d : ClientTcp) × (restarts 3 created ≡ ok d) × (d.timers ≡ created.timers + 3)
restarts-timers_example = restarts-timers 3 created statistics has_map has_statistics (omega arith)
