-- ===== src/Server/Connection.antt =====
-- package/server/server_tcp/tcp_connection.hpp: the connection of a server, an object of its own,
-- and the handlers that it has when it begins and ends. The connection itself is the library's.
use wfc_io.Prelude.{ℕ, ◌≡◌, Bool, Option, none, some, List, [], ◌∷◌, ◌++◌, arith, if◌then◌else◌}
use wfc_io.Iface.{DataPtr, WeakPtr, Alive, lock, Handler, Call, registers, unregisters}

-- The closures of `initialize`, over the handlers before them; `none` is an empty function.
pub data Lifecycle : Type 0 where
  -- A function from outside.
  external : ℕ → Lifecycle
  -- What the startup closure captures: `wtarget`, `wthis` and `startup_handler`.
  starting : WeakPtr → WeakPtr → Option ℕ → Lifecycle
  -- What the shutdown closure captures: `wtarget` and `shutdown_handler`.
  ending : WeakPtr → Option ℕ → Lifecycle

-- `tcp_connection_options`, of the fields that are used.
pub record ConnectionOptions : Type 0 where
  pub target : WeakPtr
  pub direct_mode : Bool
  pub startup_handler : Option Lifecycle
  pub shutdown_handler : Option Lifecycle

pub data Event : Type 0 where
  calls : Call → Event
  -- The handlers that were there before, with the identifier of the connection.
  opens closes : ℕ → ℕ → Event
  initializes : ConnectionOptions → Event
  -- The handler of the connection for what goes out.
  sends : DataPtr → Event
  -- The library's function of that name is called: without options, or with those that are given.
  base_resets base_starts base_closes base_stops : Event
  base_starts_with base_reconfigures : ConnectionOptions → Event
  base_shuts_down : ℕ → Event
  -- `std::lock_guard` on the connection's mutex, from its beginning to its end.
  locks unlocks : Event

-- What an operation does under the mutex.
abbrev pub guarded : List Event → List Event
guarded es = locks ∷ es ++ unlocks ∷ []

pub reset : List Event
reset = guarded (base_resets ∷ [])

pub start : List Event
start = guarded (base_starts ∷ [])

pub start_with : ConnectionOptions → List Event
start_with opt = guarded (base_starts_with opt ∷ [])

pub reconfigure : ConnectionOptions → List Event
reconfigure opt = guarded (base_reconfigures opt ∷ [])

pub close : List Event
close = guarded (base_closes ∷ [])

pub stop : List Event
stop = guarded (base_stops ∷ [])

-- `handler`: a function from outside.
pub shutdown : ℕ → List Event
shutdown handler = guarded (base_shuts_down handler ∷ [])

-- `startup` and `shutdown`: the functions of the options, from outside.
unfoldable pub wrap : ℕ → Option ℕ → Option ℕ → ConnectionOptions → ConnectionOptions
wrap self startup shutdown opt = if opt.direct_mode then opt else record opt {
  startup_handler = some (starting opt.target (some self) startup);
  shutdown_handler = some (ending opt.target shutdown);
}

pub initialize : ℕ → Option ℕ → Option ℕ → ConnectionOptions → List Event
unfolding wrap
initialize self startup shutdown opt = guarded (initializes (wrap self startup shutdown opt) ∷ [])

abbrev opened : Option ℕ → ℕ → List Event
opened none id = []
opened (some h) id = opens h id ∷ []

abbrev closed : Option ℕ → ℕ → List Event
closed none id = []
closed (some h) id = closes h id ∷ []

-- What the handlers of the options do when a connection with an identifier begins.
unfoldable pub on_startup : Alive → ℕ → Option Lifecycle → List Event
on_startup alive id none = []
on_startup alive id (some (external h)) = opens h id ∷ []
on_startup alive id (some (starting target self before)) =
    elim (lock alive target) [ none ↦ [] | some t ↦ calls (registers t id self) ∷ [] ]
    ++ opened before id
on_startup alive id (some (ending target before)) = []

-- And when it ends.
unfoldable pub on_shutdown : Alive → ℕ → Option Lifecycle → List Event
on_shutdown alive id none = []
on_shutdown alive id (some (external h)) = closes h id ∷ []
on_shutdown alive id (some (starting target self before)) = []
on_shutdown alive id (some (ending target before)) =
    elim (lock alive target) [ none ↦ [] | some t ↦ calls (unregisters t id) ∷ [] ]
    ++ closed before id

pub reg_io : ℕ → WeakPtr → List Event
reg_io io_id itf = []

pub unreg_io : ℕ → List Event
unreg_io io_id = []

-- `has_output`: whether the connection has a handler for what goes out.
unfoldable pub perform_io : Bool → DataPtr → ℕ → Handler → List Event
perform_io has_output d io_id handler = guarded (if has_output then sends d ∷ [] else [])

-- A connection of a target that is there, with a handler of the server for its begin and one for
-- its end, registers with the target when it begins, and leaves it when it ends, under one
-- identifier, in both cases before the handler of the server is called. In direct mode the
-- handlers of the server are called alone.
pub connection_life :
    (alive : Alive) (self id t : ℕ) (startup shutdown : ℕ) (opt : ConnectionOptions)
    → lock alive opt.target ≡ some t
    → opt.startup_handler ≡ some (external startup)
    → opt.shutdown_handler ≡ some (external shutdown)
    → let final = wrap self (some startup) (some shutdown) opt in
      (on_startup alive id final.startup_handler ≡ (
        if opt.direct_mode
        then opens startup id ∷ []
        else calls (registers t id (some self)) ∷ opens startup id ∷ []))
      × (on_shutdown alive id final.shutdown_handler ≡ (
          if opt.direct_mode
          then closes shutdown id ∷ []
          else calls (unregisters t id) ∷ closes shutdown id ∷ []))
unfolding wrap on_startup on_shutdown
connection_life alive self id t startup shutdown opt there a b = (ground arith, ground arith)
