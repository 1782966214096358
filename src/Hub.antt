-- ===== src/Hub.antt =====
-- package/hub/hub/hub.{hpp,cpp}: `io-hub`, which passes a message of one source on to all others
-- and to its target. The proofs are in the modules below.
--
-- The order in which an `unordered_map` is walked is not specified: here it is that of the keys.
-- The options and the suspension are the domain object's.
pub mod Delivery
pub mod Leaving
pub mod Reaching
pub mod Unordered
mod Tests
use wfc_io.Prelude.{
  ℕ, Bool, true, false, Option, none, some, List, [], ◌∷◌, ◌++◌, ◌==◌, if◌then◌else◌, String,
}
use wfc_io.Prelude.Dict.{Dict, insert, erase}
use wfc_io.Iface.{
  DataPtr, WeakPtr, Alive, lock, Handler, empty, Call, performs, registers, unregisters, Result, ok,
  fault, null_pointer, ◌>>=◌,
}

-- `hub_config`.
pub record HubConfig : Type 0 where
  pub target : String

pub data Event : Type 0 where
  calls : Call → Event
  -- `domain_object::unreg_io`.
  base_unregisters : ℕ → Event

-- The class `target_handler`, through which the target sends.
pub record TargetHandler : Type 0 where
  pub id : ℕ
  pub owner : WeakPtr

pub record Hub : Type 0 where
  -- The number of the object itself, and what `get_id` yields.
  pub self : ℕ
  pub id : ℕ
  pub suspended : Bool
  pub sources : Dict WeakPtr
  pub target : WeakPtr
  pub target_handler : Option TargetHandler
  pub handler_id : ℕ

pub init : ℕ → ℕ → Hub
init self id = record {
  self = self;
  id = id;
  suspended = false;
  sources = [];
  target = none;
  target_handler = none;
  handler_id = 0;
}

-- `found`: the object of the name in the options.
pub initialize : WeakPtr → Hub → Hub
initialize found h = record h { target = found }

-- `new_id`: what `create_id` yields; `object`: the number of the handler that is made.
pub restart : Alive → ℕ → ℕ → Hub → Hub × List Event
restart alive new_id object h = elim (lock alive h.target) [
  | none ↦ (h, [])
  | some t ↦ (
    record h {
      handler_id = new_id;
      target_handler = some (record { id = new_id; owner = some h.self });
    },
    calls (registers t new_id (some object)) ∷ [],
  )
]

pub reg_io : ℕ → WeakPtr → Hub → Hub
reg_io io_id itf h = if h.suspended then h else record h { sources = insert io_id itf h.sources }

pub unreg_io : Alive → ℕ → Hub → Hub × List Event
unreg_io alive io_id h = if h.suspended then (h, []) else (
  record h { sources = erase io_id h.sources },
  base_unregisters io_id
      ∷ elim (lock alive h.target) [ none ↦ [] | some t ↦ calls (unregisters t io_id) ∷ [] ],
)

-- One copy of the message: `std::make_unique<data_type>(*d)` reads through the pointer.
copy_to : ℕ → DataPtr → ℕ → Result Event
copy_to id none n = fault null_pointer
copy_to id (some bytes) n = ok (calls (performs n (some bytes) id empty))

-- The loop of `perform_io`.
pub broadcast : Alive → ℕ → DataPtr → ℕ → Dict WeakPtr → Result (List Event)
unfolding copy_to
broadcast alive id d io_id [] = ok []
broadcast alive id d io_id ((k, itf) ∷ rest) =
    let others = broadcast alive id d io_id rest in
    if k == io_id then others else elim (lock alive itf) [
      | none ↦ others
      | some n ↦ do first ← copy_to id d n; es ← others; ok (first ∷ es)
    ]

pub to_target : Alive → DataPtr → ℕ → Handler → Hub → List Event
to_target alive d io_id handler h = elim (lock alive h.target) [
  | none ↦ []
  | some t ↦ if h.handler_id == io_id then [] else calls (performs t d h.handler_id handler) ∷ []
]

pub perform_io : Alive → DataPtr → ℕ → Handler → Hub → Result (List Event)
unfolding to_target
perform_io alive d io_id handler h = if h.suspended then ok [] else do
  es ← broadcast alive h.id d io_id h.sources
  ok (es ++ to_target alive d io_id handler h)

-- `target_handler::perform_io`, for a handler whose owner is `h`.
pub handler_perform_io : Alive → DataPtr → Handler → TargetHandler → Hub → Result (List Event)
unfolding perform_io
handler_perform_io alive d cb th h = elim (lock alive th.owner) [
  | none ↦ ok []
  | some owner ↦ perform_io alive d th.id cb h
]
