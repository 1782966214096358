-- ===== src/Client/System/Tests.antt =====
-- The theorems on the map with its adapters, at a concrete history.
use wfc_io.Prelude.{ℕ, ◌+◌, ◌≡◌, refl, ◌∙◌, ◌≢◌, true, false, none, some, List, [], ◌∷◌, arith}
use wfc_io.Iface.{empty}
use wfc_io.Client.Options.{Config, default_config}
use wfc_io.Client.Map.{
  Op, stopped, reconfigures, regs, sends, unregs, step, reconfigure_and_start, null, find,
}
use wfc_io.Client.Map
use wfc_io.Client.Map.Ownership
use wfc_io.Client.Map.Calling.{stop-called}
use wfc_io.Client.Map.History.{step-Inv, init-Inv}
use wfc_io.Client.Map.Registry.{reg_io_lem}
use wfc_io.Client.Map.Restart.{reconfigure-stop_flag}
use wfc_io.Client.Adapter.{Holder, receive}
use wfc_io.Client.System.{World, System, init, operate, run}
use wfc_io.Client.System.Binding.{adapter_of}
use wfc_io.Client.System.Fatal.{fatals, one_source}
use wfc_io.Client.System.Binding.{regs-Bound}
use wfc_io.Client.System.Lifetime.{conclude, told, told_at_end}
use wfc_io.Client.System.Losing.{drive-holder, registrations_lost}

abbrev options : Config
options = record (default_config "localhost" "12345" "" "") { startup_pool = 1; primary_pool = 1 }

-- All objects are there, every message is sent and nothing throws.
abbrev quiet : World
quiet = record {
  alive = λ n. true;
  wire = λ cli. record { send = λ d. none; send_anew = λ d opt. none };
  throws = λ cli. false;
}

abbrev number : ℕ → ℕ
number cli = 100 + cli

abbrev before : List (World × Op)
before = (quiet, reconfigures options) ∷ (quiet, regs 7 (some 70)) ∷ []

-- Source 8 registers, sends and leaves.
abbrev after : List (World × Op)
after = (quiet, regs 8 (some 80)) ∷ (quiet, sends (some []) 8 empty) ∷ (quiet, unregs 8) ∷ []

abbrev start : System
start = init number false options options

before_served : let s = (run before start).clients in (find 7 s ≢ null) × (s.stop_flag ≡ false)
unfolding run operate step
before_served =
    let m = Map.init options in
    let r =
      reg_io_lem 7 7 (some 70) (reconfigure_and_start options m).0
        (step-Inv (reconfigures options) m tt (init-Inv options))
        (reconfigure-stop_flag options m) in
    (r.0, r.3)

registrations_lost_example :
    let t = (operate quiet (reconfigures options) (run before start)).0 in
    (find 7 t.clients ≢ null) × (receive (λ n. true) (some []) empty (adapter_of 7 t) ≡ [])
registrations_lost_example =
    registrations_lost options number false options before quiet options 7 (λ n. true) (some [])
      empty (omega arith) before_served.0

one_source_example :
    fatals (operate quiet (regs 9 (some 90)) (run before (init number false options options))).1 ≡ 0
one_source_example =
    one_source options number false options before quiet 9 (some 90) (omega arith) (λ c. refl)

-- The map of the history above, the client of source 7, and what they are after a stop.
abbrev served : System
served = run before start

abbrev ended : System
ended = (conclude quiet stopped served).0

abbrev client : ℕ
client = find 7 served.clients

ended-holder : (ended.adapters client).holder ≡ Holder.object 70
unfolding conclude operate step run
ended-holder =
    let first = (operate quiet (reconfigures options) start).0 in
    let v = step-Inv (reconfigures options) (Map.init options) tt (init-Inv options) in
    let b = regs-Bound quiet 7 70 first v (reconfigure-stop_flag options (Map.init options)) in
    drive-holder quiet (Map.stop served.clients).1 client served.adapters
      (stop-called client served.clients)
    ∙ b.1

told_at_end_example :
    told client 70 (ended.adapters client).id (conclude quiet stopped served).1
    ≡ Ownership.stopped client (step stopped served.clients).1
told_at_end_example =
    told_at_end options number false options before quiet stopped client 70 (omega arith) tt
      ended-holder refl
