-- ===== src/Server/Udp.antt =====
-- package/server/server_udp/server_udp.{hpp,cpp}: `server-udp`, which passes the datagrams that
-- come in on to its target. The proofs are in the module below.
--
-- The server for the socket is the library's: an object with a number, in the order of creation.
pub mod Running
pub mod Sessions
use text.Mathlib.Text.{◌==◌ as str_eq}
use wfc_io.Prelude.{
  ℕ, suc, Bool, true, false, ◌&&◌, Option, none, some, List, [], ◌∷◌, ◌++◌, if◌then◌else◌, String,
}
use wfc_io.Iface.{
  DataPtr, WeakPtr, Alive, Handler, Call, performs, Result, ok, fault, null_pointer, ◌>>=◌,
}
use wfc_io.Stat.{or_crlf}

-- `server_udp_config`, with those fields of its base that are read or written.
pub record UdpConfig : Type 0 where
  pub target_name : String
  pub rn : Bool
  pub target : WeakPtr
  pub port : String
  pub addr : String
  pub reader_sep : String
  pub writer_sep : String
  pub nonblocking : Bool
  -- What `input_handler` is bound to: the interface, which may be the null pointer.
  pub input_handler : Option (Option ℕ)
  -- Whether `thread_startup` and `thread_shutdown` are those that `run_` sets.
  pub registers_threads : Bool

pub data Event : Type 0 where
  calls : Call → Event
  -- `new winterface(target, suspended)` and `set_suspend`.
  interface : String → Bool → Event
  set_suspend : ℕ → Bool → Event
  -- `_impl->start(opt)` and `stop()` of a server.
  starts : ℕ → UdpConfig → Event
  stops : ℕ → Event
  -- A posted function that stops a server, or calls through the null pointer.
  posts_stop : Option ℕ → Event
  meter : String → Event
  thread_values : ℕ → ℕ → Event
  fatal : Event

pub record ServerUdp : Type 0 where
  -- The number of the object itself.
  pub self : ℕ
  pub suspended : Bool
  pub has_global : Bool
  pub options : UdpConfig
  pub has_statistics : Bool
  pub impl : Option ℕ
  pub port : String
  pub addr : String
  pub target : Option ℕ
  -- The number of the next server.
  pub next : ℕ

-- The constructor. What the domain object has is given.
unfoldable pub init : ℕ → Bool → Bool → UdpConfig → Bool → ServerUdp
init self suspended has_global options has_statistics = record {
  self = self;
  suspended = suspended;
  has_global = has_global;
  options = options;
  has_statistics = has_statistics;
  impl = none;
  port = "";
  addr = "";
  target = none;
  next = 0;
}

-- `object`: the number of the interface that is made.
pub initialize : ℕ → ServerUdp → ServerUdp × List Event
initialize object s =
    if s.has_global
    then (record s { target = some object }, interface s.options.target_name s.suspended ∷ [])
    else (s, [])

pub reconfigure_basic : ServerUdp → Result (List Event)
reconfigure_basic s = elim s.target [
  | none ↦ fault null_pointer
  | some t ↦ ok (set_suspend t s.suspended ∷ [])
]

pub set_separators : UdpConfig → UdpConfig
set_separators opt =
    if opt.rn
    then record opt { reader_sep = or_crlf opt.reader_sep; writer_sep = or_crlf opt.writer_sep }
    else opt

-- The options that `run_` starts the server with.
pub run_options : ServerUdp → UdpConfig
unfolding set_separators
run_options s = set_separators (record s.options {
  input_handler = some s.target;
  nonblocking = false;
  target = s.target;
  registers_threads = true;
})

-- The streams that name the meters are empty.
pub stat_init : ServerUdp → List Event
stat_init s = if s.has_statistics then meter "" ∷ meter "" ∷ [] else []

-- `throws`: whether `_impl->start(opt)` throws.
pub run : Bool → ServerUdp → ServerUdp × List Event
unfolding run_options stat_init
run throws s =
    let begun = record s { port = s.options.port; addr = s.options.addr } in
    if s.has_global
    then (
      record begun { impl = some s.next; next = suc s.next },
      stat_init s ++ starts s.next (run_options s) ∷ [] ++ (if throws then fatal ∷ [] else []),
    )
    else (begun, [])

pub start : Bool → ServerUdp → ServerUdp × List Event
unfolding run
start throws s = run throws s

-- The first part of `restart`, with `shutdown`, which was `_impl`.
stop_old : Option ℕ → ServerUdp → Result (List Event)
stop_old shutdown s =
    if str_eq s.port s.options.port && str_eq s.addr s.options.addr
    then elim shutdown [ none ↦ fault null_pointer | some n ↦ ok (stops n ∷ []) ]
    else ok (posts_stop shutdown ∷ [])

pub restart : Bool → ServerUdp → Result (ServerUdp × List Event)
unfolding stop_old run
restart throws s = do
  es ← stop_old s.impl s
  let (t, fs) = run throws (record s { impl = none })
  ok (t, es ++ fs)

pub stop : ServerUdp → ServerUdp × List Event
stop s = elim s.impl [ none ↦ (s, []) | some n ↦ (record s { impl = none }, stops n ∷ []) ]

-- What `input_handler` does with a datagram: `winterface::perform_io` of the interface.
pub receive : Option ℕ → DataPtr → ℕ → Handler → Result (List Event)
receive none d id cb = fault null_pointer
receive (some t) d id cb = ok (calls (performs t d id cb) ∷ [])

-- `thread_statistics`.
pub on_thread : Alive → ℕ → ℕ → ServerUdp → List Event
on_thread alive span count s =
    if alive s.self && s.has_statistics
    then thread_values span count ∷ thread_values span count ∷ []
    else []
