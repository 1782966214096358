-- ===== src/Client/Map/Tests.antt =====
-- The theorems on client_tcp_map.cpp at concrete maps, and tests of the operations.
use wfc_io.Prelude.{
  ℕ, ◌+◌, ◌≤◌, ◌<◌, ◌≡◌, if◌then◌else◌, refl, ◌≢◌, false, none, List, [], ◌∷◌, ◌++◌, arith,
}
use wfc_io.Prelude.Dict.{emplace, erase}
use wfc_io.Iface.{empty, unregisters, performs}
use wfc_io.Client.Options.{Config, default_config}
use wfc_io.Client.Map.{
  ClientMap, calls, stops, Op, reconfigures, stopped, regs, unregs, sends, null, init, create,
  reg_io, unreg_io, perform_io, release, stop, reconfigure_and_start, step, run, upsert,
  upsert_commit, find, filled_startup, renewed, stop_all_clients,
}
use wfc_io.Client.Map.Fill.{fill, renew}
use wfc_io.Client.Map.Ownership.{Inv, holds}
use wfc_io.Client.Map.Ownership
use wfc_io.Client.Map.History.{run-Inv, run_balance}
use wfc_io.Client.Map.Pools.{IsSized, run-IsSized}
use wfc_io.Client.Map.Registry.{unreg_io_lem, room}
use wfc_io.Client.Map.Refinement.{Trace, view, Exclusive}
use wfc_io.Client.Map.Refinement.Steps.{run_refines}
use wfc_io.Client.Map.Refinement.Keeping.{source_keeps_client}
use wfc_io.Client.Map.Race.Upserts.{commits, AllServed, Returns, concurrent_upserts}
use wfc_io.Client.Map.Race.Leaves.{release_late, unreg_race}
use wfc_io.Client.Map.Race.{upsert_race, upsert_late}

abbrev options : Config
options = record (default_config "localhost" "12345" "" "") {
  startup_pool = 1;
  primary_pool = 2;
  secondary_pool = 1;
}

-- Source 7 takes the client of the startup pool.
abbrev first_calls : List Op
first_calls = reconfigures options ∷ regs 7 none ∷ []

abbrev more_calls : List Op
more_calls = regs 8 none ∷ unregs 7 ∷ sends none 9 empty ∷ stopped ∷ regs 7 none ∷ []

abbrev all_calls : List Op
all_calls = first_calls ++ more_calls

abbrev served : ClientMap
served = (run first_calls (init options)).0

served-Inv : Inv served
served-Inv = run-Inv options first_calls (omega arith)

-- What the tests compute with.
opened : Unit {0}
unfolding run step init create reg_io unreg_io perform_io release stop reconfigure_and_start
    filled_startup renewed fill renew stop_all_clients upsert emplace erase
opened = tt

served_finds : (find 7 served ≡ 3) × (find 8 served ≡ null)
unfolding opened
served_finds = (refl, refl)

served_pools : (served.startup ≡ []) × (served.secondary ≡ []) × (served.primary ≡ 1 ∷ 2 ∷ [])
unfolding opened
served_pools = (refl, refl, refl)

served_running : (served.stop_flag ≡ false) × (0 < served.opt.secondary_pool)
unfolding opened
served_running = (refl, omega arith)

served_knows : find 7 served ≢ null
served_knows e = omega (arith, served_finds)

new_source : find 9 served ≡ null
unfolding opened
new_source = refl

-- The client of source 7 goes to the secondary pool, and from there to source 9.
served_messages :
    (run (unregs 7 ∷ sends none 9 empty ∷ []) served).1
    ≡ calls (unregisters 3 7) ∷ calls (performs 3 none 9 empty) ∷ []
unfolding opened
served_messages = refl

run-Inv_example : Inv (run all_calls (init options)).0
run-Inv_example = run-Inv options all_calls (omega arith)

run_balance_example :
    let (s, es) = run all_calls (init options) in
    (Ownership.started 3 es ≤ 1) × (Ownership.started 3 es ≡ Ownership.stopped 3 es + holds 3 s)
run_balance_example = run_balance options all_calls 3 (omega arith)

no_pool : (default_config "localhost" "12345" "" "").primary_pool ≡ 0
unfolding default_config
no_pool = refl

run-IsSized_example : IsSized (run all_calls (init (default_config "localhost" "12345" "" ""))).0
run-IsSized_example = run-IsSized (default_config "localhost" "12345" "" "") all_calls no_pool

unreg_io_lem_example :
    let (t, es) = unreg_io 7 served in
    (find 8 t ≡ find 8 served)
    × (t.secondary
        ≡ (if room served then served.secondary ++ find 7 served ∷ [] else served.secondary))
    × (es
        ≡ calls (unregisters (find 7 served) 7)
          ∷ (if room served then [] else stops (find 7 served) ∷ []))
unreg_io_lem_example = unreg_io_lem 7 8 served served-Inv served_running.0 served_knows

upsert_race_example :
    let (early, t, es) = upsert_commit 8 served in
    let (late, u, fs) = upsert_late 8 served in
    (find 8 u ≡ early)
    × (late ≢ early)
    × (late ≢ null)
    × (holds late u ≡ 0)
    × (Ownership.stopped late (stop u).1 ≡ 0)
upsert_race_example = upsert_race 8 served served-Inv served_finds.1

run_refines_example : Trace all_calls (init options) (run all_calls (init options)).0
run_refines_example = run_refines options all_calls (omega arith)

-- Source 8 comes, sends and leaves: source 7 keeps its client.
abbrev calls_of_8 : List Op
calls_of_8 = regs 8 none ∷ sends none 8 empty ∷ unregs 8 ∷ []

source_keeps_client_example : find 7 (run calls_of_8 served).0 ≡ find 7 served
source_keeps_client_example =
    source_keeps_client options 7 first_calls calls_of_8 (omega arith) (omega arith)
      (tt, (tt, (omega arith, tt))) (ground (arith, served_finds))

concurrent_upserts_example :
    let t = commits (8 ∷ 9 ∷ 8 ∷ []) served in
    let u = commits (9 ∷ []) t in
    AllServed (8 ∷ 9 ∷ 8 ∷ []) t
    × AllServed (9 ∷ []) u
    × ((j : ℕ) → find j t ≢ null → find j u ≡ find j t)
    × Exclusive (view u)
    × ((id : ℕ) → Returns id u)
concurrent_upserts_example = concurrent_upserts (8 ∷ 9 ∷ 8 ∷ []) (9 ∷ []) served served-Inv

-- Source 7 leaves twice, with room for two clients in the secondary pool.
abbrev roomy : Config
roomy = record options { secondary_pool = 2 }

abbrev roomy_calls : List Op
roomy_calls = reconfigures roomy ∷ regs 7 none ∷ []

abbrev spacious : ClientMap
spacious = (run roomy_calls (init roomy)).0

spacious_pools :
    (spacious.startup ≡ []) × (spacious.secondary ≡ []) × (1 < spacious.opt.secondary_pool)
unfolding opened
spacious_pools = (refl, refl, omega arith)

spacious_finds : (find 7 spacious ≡ 3) × (find 8 spacious ≡ null) × (find 9 spacious ≡ null)
unfolding opened
spacious_finds = (refl, refl, refl)

unreg_race_example :
    let cli = find 7 spacious in
    let t = (release_late 7 spacious).0 in
    let u = (upsert 9 (upsert 8 t).1).1 in
    (t.secondary ≡ cli ∷ cli ∷ []) × (find 8 u ≡ cli) × (find 9 u ≡ cli)
unreg_race_example =
    unreg_race 7 8 9 spacious (run-Inv roomy roomy_calls (omega arith)) spacious_pools.0
      spacious_pools.1 spacious_pools.2 (ground (arith, spacious_finds.0)) (omega arith)
      spacious_finds.1 spacious_finds.2
