-- ===== src/Iface.antt =====
-- What the components of package/ share: `wfc::iinterface`, through which they call one another.
-- The interface itself belongs to wfc and is not in this repository, so a call of another object is
-- an entry in the list of calls that an operation makes.
use wfc_io.Prelude.{ℕ, Option, none, some, List, Bool, true, false, if◌then◌else◌}

-- `data_ptr`, a unique pointer to a vector of bytes.
abbrev pub DataPtr : Type 0
DataPtr = Option (List ℕ)

-- `std::weak_ptr<iinterface>`: the object's number, or the empty pointer.
abbrev pub WeakPtr : Type 0
WeakPtr = Option ℕ

-- Which objects are still there while an operation runs.
abbrev pub Alive : Type 0
Alive = ℕ → Bool

abbrev pub lock : Alive → WeakPtr → Option ℕ
lock alive none = none
lock alive (some object) = if alive object then some object else none

-- `output_handler_t`, a `std::function` that may be empty: the closures that the package makes,
-- over those of its callers.
pub data Handler : Type 0 where
  -- The empty function, which is equal to nullptr.
  empty : Handler
  -- A function that came from outside the package.
  external : ℕ → Handler
  -- The closure of `statistics::perform_io`: a meter and the handler that it wraps.
  measured : ℕ → Handler → Handler
  -- The closure of `queue::make_handler_`: the queue and the handler that it wraps.
  requeued : ℕ → Handler → Handler
  -- The closure of `server_tcp::run_` for connections that are not kept alive.
  closing : Handler → Handler
  -- The closure of `client_tcp_adapter::start` that answers over another connection.
  answering : ℕ → Handler

-- A call of another object, or of a handler.
pub data Call : Type 0 where
  performs : ℕ → DataPtr → ℕ → Handler → Call
  registers : ℕ → ℕ → WeakPtr → Call
  unregisters : ℕ → ℕ → Call
  invokes : Handler → DataPtr → Call

abbrev pub is_empty : Handler → Bool
is_empty empty = true
is_empty h = false

-- What ends an operation early: a call through a null pointer, or of an empty `std::function`.
pub data Fault : Type 0 where
  null_pointer empty_function : Fault

pub data Result {ℓ} (A : Type ℓ) : Type ℓ where
  ok : A → Result A
  fault : Fault → Result A

infixl 5 ◌>>=◌
abbrev pub ◌>>=◌ {ℓ κ} : {A : Type ℓ} {B : Type κ} → Result A → (A → Result B) → Result B
ok a >>= f = f a
fault e >>= f = fault e
