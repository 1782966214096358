-- ===== src/Client/Tcp.antt =====
-- package/client/client_tcp/client_tcp.{hpp,cpp}: the component `client-tcp`, in front of the map
-- of its clients. The proofs are in the modules below.
--
-- Options, suspension and statistics are the domain object's (wfc): they are fields that the
-- operations read. `_mutex` is recursive, and one operation runs at a time.
pub mod Waiting
pub mod Leaving
pub mod Timers
pub mod Driving
pub mod Receiving
pub mod Component
mod Tests
use Prim.Native.String.{◌++◌ as str_append}
use text.Mathlib.Text.{◌==◌ as str_eq}
use wfc_io.Prelude.{
  ℕ, zero, suc, ◌+◌, Bool, true, false, not, ◌&&◌, Option, none, some, List, [], ◌∷◌, ◌++◌, map,
  ltb, if◌then◌else◌, String,
}
use wfc_io.Prelude.Dict.{Dict, insert, erase}
use wfc_io.Iface.{DataPtr, WeakPtr, Handler, is_empty, Result, ok, fault, null_pointer, ◌>>=◌}
use wfc_io.Stat.{ConnectionStat, MeterNames, meter_names, meter_values, or_crlf}
use wfc_io.Client.Options.{Config}
use wfc_io.Client.Map.{ClientMap}
use wfc_io.Client.Map

pub data Event : Type 0 where
  client : Map.Event → Event
  invokes : Handler → DataPtr → Event
  fatal : Event
  -- A value meter is made, by its name, and a timer, by its period.
  meter : String → Event
  timer : ℕ → Event
  -- What the timer writes to the meters.
  values : List ℕ → Event

-- What `get_statistics` and `statistics_options` yield.
pub record Statistics : Type 0 where
  pub names : MeterNames

pub record ClientTcp : Type 0 where
  pub name : String
  pub suspended : Bool
  pub options : Config
  pub statistics : Option Statistics
  pub client_map : Option ClientMap
  pub wait_list : Dict WeakPtr
  pub client_started : Bool
  -- How many timers that this object made are running.
  pub timers : ℕ

-- The constructor.
pub init : String → Bool → Config → Option Statistics → ClientTcp
init name suspended options statistics = record {
  name = name;
  suspended = suspended;
  options = options;
  statistics = statistics;
  client_map = none;
  wait_list = [];
  client_started = false;
  timers = 0;
}

-- The new map has default options.
pub initialize : Config → ClientTcp → ClientTcp
initialize default c = record c { client_map = some (Map.init default) }

abbrev on_map : ClientTcp → ClientMap × List Map.Event → ClientTcp × List Event
on_map c (m, es) = (record c { client_map = some m }, map client es)

pub stop : ClientTcp → ClientTcp × List Event
stop c =
    let stopped = record c { client_started = false } in
    elim c.client_map [ none ↦ (stopped, []) | some m ↦ on_map stopped (Map.stop m) ]

pub reg_io : ℕ → WeakPtr → ClientTcp → ClientTcp × List Event
reg_io io_id itf c = elim c.client_map [
  | none ↦ (c, [])
  | some m ↦
      if c.suspended
      then (c, [])
      else if c.client_started
      then on_map c (Map.reg_io io_id itf m)
      else (record c { wait_list = insert io_id itf c.wait_list }, [])
]

pub unreg_io : ℕ → ClientTcp → ClientTcp × List Event
unreg_io io_id c = elim c.client_map [
  | none ↦ (c, [])
  | some m ↦
      if c.client_started
      then on_map c (Map.unreg_io io_id m)
      else (record c { wait_list = erase io_id c.wait_list }, [])
]

pub perform_io : DataPtr → ℕ → Handler → ClientTcp → ClientTcp × List Event
perform_io d io_id handler c =
    if c.suspended
    then (c, if is_empty handler then [] else invokes handler none ∷ [])
    else elim c.client_map [ none ↦ (c, []) | some m ↦ on_map c (Map.perform_io d io_id handler m) ]

-- With `rn`, separators that are not set end the line.
pub set_separators : Config → Config
set_separators opt =
    if opt.rn
    then record opt { reader_sep = or_crlf opt.reader_sep; writer_sep = or_crlf opt.writer_sep }
    else opt

-- The options for the map.
pub client_options : Config → Config
unfolding set_separators
client_options opt = set_separators (record opt { posts_delayed = true })

-- `for ( const auto &item : _wait_list ) this->reg_io(item.first, item.second)`.
pub reg_waiting : Dict WeakPtr → ClientTcp → ClientTcp × List Event
unfolding reg_io
reg_waiting [] c = (c, [])
reg_waiting ((io_id, itf) ∷ rest) c =
    let (c', es) = reg_io io_id itf c in let (c'', fs) = reg_waiting rest c' in (c'', es ++ fs)

pub start_waiting : ClientTcp → ClientTcp × List Event
unfolding reg_waiting
start_waiting c =
    if c.client_started
    then (c, [])
    else reg_waiting c.wait_list (record c { client_started = true })

-- The last part of `reconfigure_and_start_`.
pub start_meters : ClientTcp → ClientTcp × List Event
start_meters c = elim c.statistics [
  | none ↦ (c, [])
  | some s ↦
      if ltb 0 s.names.tracking_ms
      then (
        record c { timers = suc c.timers },
        map meter (meter_names c.name s.names) ++ timer s.names.tracking_ms ∷ [],
      )
      else (c, [])
]

-- The closure of the timer; `there`: whether the object and its statistics are still there, and
-- `stat`: what the map of the clients counts. It returns whether to go on.
pub on_timer : Bool → ConnectionStat → ClientTcp → Result (Bool × List Event)
on_timer there stat c =
    if there
    then elim c.client_map [
      | none ↦ fault null_pointer
      | some m ↦ ok (true, values (meter_values stat) ∷ [])
    ]
    else ok (false, [])

pub configure_map : ClientTcp → Result (ClientTcp × List Event)
unfolding client_options
configure_map c = elim c.client_map [
  | none ↦ fault null_pointer
  | some m ↦ ok (on_map c (Map.reconfigure_and_start (client_options c.options) m))
]

pub reconfigure_and_start : ClientTcp → Result (ClientTcp × List Event)
unfolding configure_map
reconfigure_and_start c = do
  (c1, es) ← configure_map c
  let (c2, fs) = start_waiting c1
  let (c3, gs) = start_meters c2
  ok (c3, es ++ fs ++ gs)

pub start : ClientTcp → Result (ClientTcp × List Event)
unfolding reconfigure_and_start
start c =
    if not c.suspended && str_eq c.options.addr ""
    then ok (c, fatal ∷ [])
    else reconfigure_and_start c

pub restart : ClientTcp → Result (ClientTcp × List Event)
unfolding reconfigure_and_start
restart c = reconfigure_and_start c
