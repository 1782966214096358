-- ===== src/Client/Adapter.antt =====
-- package/client/client_tcp/client_tcp_adapter.{hpp,cpp}: one connection, or several, to a server,
-- and the object that receives what comes in. The proofs are in the modules below.
--
-- The TCP client itself is the library's: what it could not send is an argument of `perform_io`.
-- Sending and the calls of other objects are the events that an operation returns, in their order.
pub mod Performing
pub mod Holders
pub mod Sending
mod Tests
use wfc_io.Prelude.{
  ℕ, zero, suc, ◌+◌, Bool, true, false, not, ◌&&◌, ◌||◌, Option, none, some, List, [], ◌∷◌, ◌++◌,
  ltb, ◌==◌, if◌then◌else◌,
}
use wfc_io.Iface.{
  DataPtr, WeakPtr, Alive, Handler, answering, Call, performs, registers, unregisters, invokes,
  is_empty,
}
use wfc_io.Client.Options.{Config, Input, Connect, Shutdown, receiving, joining, leaving}

-- `_perform_holder`: an object of the class `perform_holder`, and which one in the order of
-- creation.
pub record Wrapper : Type 0 where
  pub serial : ℕ
  pub handler : Handler

-- `_holder`, a weak pointer: empty, to an object, or to a wrapper.
pub data Holder : Type 0 where
  nobody : Holder
  object : ℕ → Holder
  wrapped : ℕ → Holder

-- The object that a holder leads to while it is there.
pub data Target : Type 0 where
  object : ℕ → Target
  wrapper : Handler → Target

pub data Event : Type 0 where
  calls : Call → Event
  -- A call of a function that `perform_holder` has from `iinterface`.
  inherited : Event
  -- `_client->start(opt)` and `_client->stop()`.
  starts : Config → Event
  stops : Event
  -- `_client->send(d)` and `_client->send(d, _options)`.
  sends : DataPtr → Event
  sends_anew : DataPtr → Config → Event
  -- The handlers of the options that the closures call.
  connected : Connect → Event
  shut : Shutdown → ℕ → Event
  -- A task for the event loop.
  posts : Event → Event
  -- What is logged.
  fatal error warning : Event

pub record Adapter : Type 0 where
  -- The number of the object itself, for weak pointers to it.
  pub self : ℕ
  pub id : ℕ
  pub holder_id : ℕ
  pub error_flag : Bool
  pub holder : Holder
  pub perform_holder : Option Wrapper
  pub keep_alive : Bool
  pub options : Config
  -- How many wrappers have been made.
  pub made : ℕ

-- The constructor. `_keep_alive` and `_options` are not set before `start`.
unfoldable pub init : ℕ → ℕ → Bool → Config → Adapter
init self id keep_alive options = record {
  self = self;
  id = id;
  holder_id = 0;
  error_flag = false;
  holder = nobody;
  perform_holder = none;
  keep_alive = keep_alive;
  options = options;
  made = 0;
}

-- A wrapper is there as long as `_perform_holder` points to it.
lock_wrapper : ℕ → Option Wrapper → Option Target
lock_wrapper serial none = none
lock_wrapper serial (some w) = if w.serial == serial then some (wrapper w.handler) else none

lock_holder : Alive → Holder → Option Wrapper → Option Target
unfolding lock_wrapper
lock_holder alive nobody w = none
lock_holder alive (Holder.object n) w = if alive n then some (Target.object n) else none
lock_holder alive (wrapped serial) w = lock_wrapper serial w

unfoldable pub get_holder : Alive → Adapter → Option Target
unfolding lock_holder
get_holder alive a = lock_holder alive a.holder a.perform_holder

-- A call of the holder. The class `perform_holder` overrides `perform_io` alone.
pub perform_on : Target → DataPtr → ℕ → Handler → List Event
perform_on (Target.object n) d id handler = calls (performs n d id handler) ∷ []
perform_on (wrapper h) d id handler = calls (invokes h d) ∷ []

pub reg_on : Target → ℕ → WeakPtr → Event
reg_on (Target.object n) id itf = calls (registers n id itf)
reg_on (wrapper h) id itf = inherited

pub unreg_on : Target → ℕ → Event
unreg_on (Target.object n) id = calls (unregisters n id)
unreg_on (wrapper h) id = inherited

-- The destructor.
unfoldable pub destroy : Alive → Adapter → List Event
unfolding get_holder unreg_on
destroy alive a = elim (get_holder alive a) [ none ↦ [] | some h ↦ unreg_on h a.id ∷ [] ]

unfoldable pub stop : Adapter → List Event
stop a = stops ∷ []

abbrev pub or_receiving : ℕ → Input → Input
or_receiving self Input.empty = receiving self
or_receiving self input = input

abbrev pub started_options : ℕ → Config → Config
started_options self opt = record opt {
  input_handler = or_receiving self opt.input_handler;
  connect_handler = joining self opt.connect_handler;
  shutdown_handler = leaving self opt.shutdown_handler;
}

-- `throws`: whether `_client->start(opt)` throws.
unfoldable pub start : Bool → Config → Adapter → Adapter × List Event
start throws opt a = (
  record a { keep_alive = opt.keep_alive; options = started_options a.self opt },
  starts (started_options a.self opt)
      ∷ (if throws then (if opt.abort_if_error then fatal else error) ∷ [] else []),
)

-- The closure that becomes `connection.input_handler`.
unfoldable pub receive : Alive → DataPtr → Handler → Adapter → List Event
unfolding get_holder perform_on
receive alive d handler a = elim (get_holder alive a) [
  | none ↦ []
  | some h ↦
      if a.keep_alive
      then perform_on h d a.id handler
      else (if is_empty handler then [] else calls (invokes handler none) ∷ [])
        ++ perform_on h d a.id (answering a.self)
]

is_no_connect : Connect → Bool
is_no_connect Connect.empty = true
is_no_connect c = false

-- The closure that becomes `args.connect_handler`, over the handler before it.
pub connect : Alive → Connect → Adapter → List Event
unfolding get_holder reg_on is_no_connect
connect alive before a =
    elim (get_holder alive a) [ none ↦ [] | some h ↦ reg_on h a.id (some a.self) ∷ [] ]
    ++ (if is_no_connect before then [] else connected before ∷ [])

is_no_shutdown : Shutdown → Bool
is_no_shutdown Shutdown.empty = true
is_no_shutdown c = false

-- The closure that becomes `connection.shutdown_handler`, over the handler before it.
pub shutdown : Alive → Shutdown → ℕ → Adapter → List Event
unfolding get_holder unreg_on is_no_shutdown
shutdown alive before id a =
    elim (get_holder alive a) [ none ↦ [] | some h ↦ posts (unreg_on h a.id) ∷ [] ]
    ++ (if is_no_shutdown before then [] else shut before id ∷ [])

abbrev holder_of : WeakPtr → Holder
holder_of none = nobody
holder_of (some n) = Holder.object n

unfoldable pub reg_io : Alive → ℕ → WeakPtr → Adapter → Adapter × List Event
unfolding get_holder reg_on
reg_io alive io_id itf a =
    let a' = record a { holder_id = io_id; holder = holder_of itf; perform_holder = none } in
    (
      a',
      (if ltb 0 a.holder_id && not (a.holder_id == io_id) then fatal ∷ [] else [])
          ++ elim (get_holder alive a') [ none ↦ [] | some h ↦ reg_on h a.id (some a.self) ∷ [] ],
    )

unfoldable pub unreg_io : ℕ → Adapter → Adapter
unreg_io io_id a =
    if not (a.holder_id == io_id) then a else record a { holder_id = 0; perform_holder = none }
