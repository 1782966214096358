-- ===== src/Server/Tcp.antt =====
-- package/server/server_tcp/server_tcp.{hpp,cpp}: `server-tcp`, which accepts connections and
-- passes what comes in on to its target. The proofs are in the modules below.
--
-- The server for the sockets is the library's: an object with a number, in the order of creation.
-- The target is reached through a `winterface` of wfc.
pub mod Restarting
pub mod Answering
pub mod Sessions
use Prim.Native.String.{◌++◌ as str_append}
use text.Mathlib.Text.{◌==◌ as str_eq}
use wfc_io.Prelude.{
  ℕ, zero, suc, Bool, true, false, not, ◌&&◌, Option, none, some, List, [], ◌∷◌, ◌++◌, map, ltb,
  if◌then◌else◌, String,
}
use wfc_io.Iface.{
  DataPtr, WeakPtr, Alive, Handler, closing, Call, performs, invokes, is_empty, Result, ok, fault,
  null_pointer, empty_function, ◌>>=◌,
}
use wfc_io.Stat.{ConnectionStat, MeterNames, meter_names, meter_values, or_crlf}
use wfc_io.Workflow.{Timers, release, create}

-- The closure of `run_`: `ptarget` and `keep_alive`.
pub record Accepting : Type 0 where
  pub target : Option ℕ
  pub keep_alive : Bool

-- `server_tcp_config`, with those fields of `tcp_options` that are read or written.
pub record ServerConfig : Type 0 where
  pub target : String
  pub rn : Bool
  pub keep_alive : Bool
  pub port : String
  pub addr : String
  pub reader_sep : String
  pub writer_sep : String
  pub nonblocking : Bool
  pub input_handler : Option Accepting
  pub connection_target : WeakPtr
  -- Whether `thread_startup` and `thread_shutdown` are those that `run_` sets.
  pub registers_threads : Bool

pub data Event : Type 0 where
  calls : Call → Event
  -- `new winterface(target, suspended)` and `set_suspend`.
  interface : String → Bool → Event
  set_suspend : ℕ → Bool → Event
  -- `_impl->start(opt)` and `stop()` of a server.
  starts : ℕ → ServerConfig → Event
  stops : ℕ → Event
  -- A posted function that stops a server, or calls through the null pointer.
  posts_stop : Option ℕ → Event
  -- A value meter is made, by its name; values for meters.
  meter : String → Event
  values : List ℕ → Event
  thread_values : ℕ → ℕ → Event
  fatal : Event

pub record ServerTcp : Type 0 where
  -- The number of the object itself.
  pub self : ℕ
  pub name : String
  pub suspended : Bool
  pub has_global : Bool
  pub options : ServerConfig
  -- What `get_statistics` and `statistics_options` yield.
  pub statistics : Option MeterNames
  pub impl : Option ℕ
  pub port : String
  pub addr : String
  pub target : Option ℕ
  pub timer_id : Option ℕ
  pub timers : Timers
  -- The number of the next server.
  pub next : ℕ

-- The constructor. What the domain object and the workflow have is given.
pub init : ℕ → String → Bool → Bool → ServerConfig → Option MeterNames → Timers → ServerTcp
init self name suspended has_global options statistics timers = record {
  self = self;
  name = name;
  suspended = suspended;
  has_global = has_global;
  options = options;
  statistics = statistics;
  impl = none;
  port = "";
  addr = "";
  target = none;
  timer_id = none;
  timers = timers;
  next = 0;
}

-- `object`: the number of the interface that is made.
pub initialize : ℕ → ServerTcp → ServerTcp × List Event
initialize object s =
    if s.has_global
    then (record s { target = some object }, interface s.options.target s.suspended ∷ [])
    else (s, [])

pub reconfigure_basic : ServerTcp → Result (List Event)
reconfigure_basic s = elim s.target [
  | none ↦ fault null_pointer
  | some t ↦ ok (set_suspend t s.suspended ∷ [])
]

pub set_separators : ServerConfig → ServerConfig
set_separators opt =
    if opt.rn
    then record opt { reader_sep = or_crlf opt.reader_sep; writer_sep = or_crlf opt.writer_sep }
    else opt

-- The options that `run_` starts the server with.
unfoldable pub run_options : ServerTcp → ServerConfig
unfolding set_separators
run_options s = set_separators (record s.options {
  input_handler = some (record { target = s.target; keep_alive = s.options.keep_alive });
  nonblocking = false;
  connection_target = s.target;
  registers_threads = true;
})

-- The timer of `stat_init_`.
start_timer : MeterNames → ServerTcp → ServerTcp × List Event
start_timer names s =
    let released = record s { timers = release s.timer_id s.timers } in
    if ltb 0 names.tracking_ms
    then (
      record released {
        timer_id = some (create released.timers).0;
        timers = (create released.timers).1;
      },
      map meter (meter_names s.name names),
    )
    else (released, [])

pub stat_init : ServerTcp → ServerTcp × List Event
unfolding start_timer
stat_init s = elim s.statistics [
  | none ↦ (s, [])
  | some names ↦
      let (t, es) = start_timer names s in
      (t, meter (str_append s.name ".thread0") ∷ meter (str_append s.name ".threads") ∷ es)
]

-- `throws`: whether `_impl->start(opt)` throws.
pub run : Bool → ServerTcp → ServerTcp × List Event
unfolding run_options stat_init
run throws s =
    let begun = record s {
      port = s.options.port;
      addr = s.options.addr;
      impl = some s.next;
      next = suc s.next;
    } in
    let (t, es) = stat_init begun in
    (t, es ++ starts s.next (run_options s) ∷ [] ++ (if throws then fatal ∷ [] else []))

pub start : Bool → ServerTcp → ServerTcp × List Event
unfolding run
start throws s = run throws s

-- The first part of `restart`, with `shutdown`, which was `_impl`.
stop_old : Option ℕ → ServerTcp → Result (List Event)
stop_old shutdown s =
    if str_eq s.port s.options.port && str_eq s.addr s.options.addr
    then elim shutdown [ none ↦ fault null_pointer | some n ↦ ok (stops n ∷ []) ]
    else ok (posts_stop shutdown ∷ [])

pub restart : Bool → ServerTcp → Result (ServerTcp × List Event)
unfolding stop_old run
restart throws s = do
  es ← stop_old s.impl s
  let (t, fs) = run throws (record s { impl = none })
  ok (t, es ++ fs)

pub stop : ServerTcp → ServerTcp × List Event
stop s = elim s.impl [ none ↦ (s, []) | some n ↦ (record s { impl = none }, stops n ∷ []) ]

-- The posted function.
pub run_posted : Option ℕ → Result (List Event)
run_posted none = fault null_pointer
run_posted (some n) = ok (stops n ∷ [])

-- The closure that becomes `connection.input_handler`.
unfoldable pub receive : Accepting → DataPtr → ℕ → Handler → Result (List Event)
receive a d id cb = elim a.target [
  | none ↦ fault null_pointer
  | some t ↦ ok (calls (performs t d id (if a.keep_alive then cb else closing cb)) ∷ [])
]

-- The call of a handler: of the closure that closes a connection, or of another function.
pub call_handler : Handler → DataPtr → Result (List Event)
call_handler Handler.empty d = fault empty_function
call_handler (closing cb) d =
    if is_empty cb
    then fault empty_function
    else ok (calls (invokes cb d) ∷ calls (invokes cb none) ∷ [])
call_handler handler d = ok (calls (invokes handler d) ∷ [])

-- `thread_statistics`.
pub on_thread : Alive → ℕ → ℕ → ServerTcp → List Event
on_thread alive span count s = elim s.statistics [
  | none ↦ []
  | some names ↦
      if alive s.self then thread_values span count ∷ thread_values span count ∷ [] else []
]

-- The closure of the timer; `stat_there`: whether the statistics object is still there, and `stat`:
-- what the server counts. It returns whether to go on.
pub on_timer : Alive → Bool → ConnectionStat → ServerTcp → Result (Bool × List Event)
on_timer alive stat_there stat s =
    if alive s.self && stat_there
    then elim s.impl [
      | none ↦ fault null_pointer
      | some n ↦ ok (true, values (meter_values stat) ∷ [])
    ]
    else ok (false, [])
