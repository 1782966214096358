-- ===== src/Statistics.antt =====
-- package/statistics/statistics/: `io-statistics`, which passes messages and answers on and
-- measures them. The proofs are in the modules below.
--
-- Meters are wfc's: a value that is written to one is an event. A composite meter that is created
-- for a message has a number.
pub mod Passing
pub mod Timing
mod Tests
use Prim.Native.String.{◌++◌ as str_append}
use wfc_io.Prelude.{
  ℕ, suc, Bool, true, false, Option, none, some, List, [], ◌∷◌, ◌++◌, String, if◌then◌else◌, ltb,
  length,
}
use wfc_io.Iface.{
  DataPtr, WeakPtr, Alive, lock, Handler, empty, measured, is_empty, Call, performs, registers,
  unregisters, invokes, Result, ok, fault, empty_function,
}
use wfc_io.Workflow.{Timers, release, create}

-- `statistics_config` and `statistics_stat`.
pub record StatisticsConfig : Type 0 where
  pub target : String

pub record StatisticsStat : Type 0 where
  pub tracking_ms : ℕ
  pub track_name : String
  pub time_name : String
  pub read_name : String
  pub write_name : String

-- The default values of the fields.
abbrev pub default_stat : StatisticsStat
default_stat = record {
  tracking_ms = 1000;
  track_name = ".connections";
  time_name = ".time";
  read_name = ".read_size";
  write_name = ".write_size";
}

pub data Event : Type 0 where
  calls : Call → Event
  -- `domain_object::reg_io` and `domain_object::unreg_io`.
  base_registers : ℕ → WeakPtr → Event
  base_unregisters : ℕ → Event
  -- `owner().tracking(io_id)`.
  tracks : ℕ → Event
  -- A composite meter is made, by the names of its parts, and a value meter.
  composite_meter : String → String → String → Event
  value_meter : String → Event
  -- `_meter.create_shared(count, read, write)`, with the number of the meter.
  measures : ℕ → ℕ → ℕ → ℕ → Event
  -- `meter->set_write_size(size)`.
  write_size : ℕ → ℕ → Event
  -- A value for the meter of the connections.
  connections : ℕ → Event

pub record Statistics : Type 0 where
  pub name : String
  pub suspended : Bool
  pub options : StatisticsConfig
  -- What `statistics_options` yields, and whether `get_statistics` yields an object.
  pub stat_options : StatisticsStat
  pub has_statistics : Bool
  pub target : WeakPtr
  pub timer_id : Option ℕ
  -- The timers of the workflow, and the number of the next composite meter.
  pub timers : Timers
  pub next_meter : ℕ

make_meters : Statistics → List Event
make_meters s =
    composite_meter (str_append s.name s.stat_options.time_name)
      (str_append s.name s.stat_options.read_name) (str_append s.name s.stat_options.write_name)
    ∷ value_meter (str_append s.name s.stat_options.track_name)
    ∷ []

-- `create_timer`, with the period that it is given.
start_timer : Statistics → Statistics
start_timer s =
    if ltb 0 s.stat_options.tracking_ms
    then record s { timer_id = some (create s.timers).0; timers = (create s.timers).1 }
    else s

pub initialize : (String → WeakPtr) → Statistics → Statistics × List Event
unfolding make_meters start_timer
initialize get_target s =
    let released = record s {
      target = get_target s.options.target;
      timers = release s.timer_id s.timers;
    } in
    if s.has_statistics then (start_timer released, make_meters s) else (released, [])

-- The closure of the timer; `tracking_size`: what the owner yields. It returns whether to go on.
pub on_timer : ℕ → Statistics → Bool × List Event
on_timer tracking_size s =
    if s.suspended
    then (true, [])
    else (true, if s.has_statistics then connections tracking_size ∷ [] else [])

pub reg_io : Alive → ℕ → WeakPtr → Statistics → List Event
reg_io alive io_id itf s =
    tracks io_id
      ∷ elim (lock alive s.target) [ none ↦ [] | some t ↦ calls (registers t io_id itf) ∷ [] ]
    ++ base_registers io_id itf ∷ []

pub unreg_io : Alive → ℕ → Statistics → List Event
unreg_io alive io_id s =
    elim (lock alive s.target) [ none ↦ [] | some t ↦ calls (unregisters t io_id) ∷ [] ]
    ++ base_unregisters io_id ∷ []

-- The branch of `perform_io` that measures.
unfoldable pub measure : ℕ → List ℕ → ℕ → Handler → Statistics → Statistics × List Event
measure t bytes io_id handler s = (
  record s { next_meter = suc s.next_meter },
  measures s.next_meter 1 (length bytes) 0
      ∷ calls (performs t (some bytes) io_id (measured s.next_meter handler))
      ∷ [],
)

unfoldable pub perform_io : Alive → DataPtr → ℕ → Handler → Statistics → Statistics × List Event
unfolding measure
perform_io alive d io_id handler s = elim (lock alive s.target) [
  | none ↦ (s, [])
  | some t ↦ if s.suspended then (s, calls (performs t d io_id handler) ∷ []) else elim d [
    | none ↦ (s, calls (performs t none io_id handler) ∷ [])
    | some bytes ↦
        if s.has_statistics
        then measure t bytes io_id handler s
        else (s, calls (performs t (some bytes) io_id handler) ∷ [])
  ]
]

abbrev pub set_write_size : ℕ → DataPtr → List Event
set_write_size m none = []
set_write_size m (some bytes) = write_size m (length bytes) ∷ []

-- The call of a handler: of the closure of `perform_io`, or of another function.
unfoldable pub call_handler : Handler → DataPtr → Result (List Event)
call_handler empty d = fault empty_function
call_handler (measured m handler) d =
    if is_empty handler
    then fault empty_function
    else ok (set_write_size m d ++ calls (invokes handler d) ∷ [])
call_handler handler d = ok (calls (invokes handler d) ∷ [])
