-- ===== src/Queue.antt =====
-- package/queue/queue/: `io-queue`, which passes messages, and optionally the answers, through
-- queues of workflows. The proofs are in the modules below.
--
-- A posted function stands in the list of events as what it captured, with the workflow to which it
-- is posted. The workflow runs it, or drops it by its second function. The domain object decides
-- whether an identifier is still tracked when a function runs.
pub mod Serving
pub mod Ordering
mod Tests
use wfc_io.Prelude.{ℕ, Bool, Option, none, some, List, [], ◌∷◌, ◌++◌, String, if◌then◌else◌, ◌==◌}
use wfc_io.Iface.{
  DataPtr, WeakPtr, Alive, lock, Handler, requeued, is_empty, Call, performs, registers,
  unregisters, invokes, Result, ok, fault, null_pointer, ◌>>=◌,
}

pub record QueueConfig : Type 0 where
  pub target : String
  pub callback_queue : Bool
  pub callback_workflow : String

-- The default values of the fields.
abbrev pub default_config : String → String → QueueConfig
default_config target callback_workflow = record {
  target = target;
  callback_queue = Bool.false;
  callback_workflow = callback_workflow;
}

-- The functions that are posted to a workflow.
pub data Task : Type 0 where
  -- That of `perform_io`: `pd`, `io_id`, `handler`, `wthis` and `wtarget`.
  request : DataPtr → ℕ → Handler → WeakPtr → WeakPtr → Task
  -- That of the closure of `make_handler_`: `pd` and `handler`.
  answer : DataPtr → Handler → Task

pub data Event : Type 0 where
  calls : Call → Event
  -- To the workflow of the object, or to that for answers.
  posts : Option ℕ → Task → Event
  -- `domain_object::unreg_io`.
  base_unregisters : ℕ → Event
  -- The warning of a function that is not run, as its identifier is no longer tracked.
  warns : Event

pub record Queue : Type 0 where
  -- The number of the object itself.
  pub self : ℕ
  pub suspended : Bool
  pub options : QueueConfig
  pub target : WeakPtr
  pub callback_workflow : Option ℕ

-- What the domain object looks up, by the names in the options; no workflow is the null pointer.
pub initialize : (String → WeakPtr) → (String → Option ℕ) → Queue → Queue
initialize get_target get_workflow q = record q {
  callback_workflow =
      (if q.options.callback_queue then get_workflow q.options.callback_workflow else none);
  target = get_target q.options.target;
}

pub reg_io : Alive → ℕ → WeakPtr → Queue → List Event
reg_io alive io_id itf q = elim (lock alive q.target) [
  | none ↦ []
  | some t ↦ calls (registers t io_id itf) ∷ []
]

pub unreg_io : Alive → ℕ → Queue → List Event
unreg_io alive io_id q =
    base_unregisters io_id
    ∷ elim (lock alive q.target) [ none ↦ [] | some t ↦ calls (unregisters t io_id) ∷ [] ]

-- A target that is gone and a handler that is empty lead on past the first test.
unfoldable pub perform_io : Alive → DataPtr → ℕ → Handler → Queue → Result (List Event)
perform_io alive d io_id handler q = elim (lock alive q.target) [
  | none ↦
      if is_empty handler
      then (if q.suspended
          then fault null_pointer
          else ok (posts none (request d io_id handler (some q.self) q.target) ∷ []))
      else ok (calls (invokes handler none) ∷ [])
  | some t ↦
      if q.suspended
      then ok (calls (performs t d io_id handler) ∷ [])
      else ok (posts none (request d io_id handler (some q.self) q.target) ∷ [])
]

unfoldable pub make_handler : Handler → Queue → Handler
make_handler handler q = elim q.callback_workflow [
  | none ↦ handler
  | some w ↦ if is_empty handler then handler else requeued q.self handler
]

-- The call of a handler: the closure of `make_handler_` if it is one of this queue.
unfoldable pub call_handler : Alive → Handler → DataPtr → Queue → List Event
call_handler alive (requeued self handler) d q = elim (lock alive (some self)) [
  | none ↦ calls (invokes handler d) ∷ []
  | some _ ↦ elim q.callback_workflow [
    | none ↦ calls (invokes handler d) ∷ []
    | some w ↦ posts (some w) (answer d handler) ∷ []
  ]
]
call_handler alive handler d q = calls (invokes handler d) ∷ []

-- What a posted function does when it runs, as the queue is by then.
unfoldable pub run_task : Alive → (ℕ → Bool) → Task → Queue → List Event
unfolding make_handler
run_task alive tracked (request pd io_id handler wthis wtarget) q =
    if tracked io_id
    then elim (lock alive wthis) [
      | none ↦ []
      | some _ ↦ elim (lock alive wtarget) [
        | some t ↦ calls (performs t pd io_id (make_handler handler q)) ∷ []
        | none ↦ if is_empty handler then [] else calls (invokes handler none) ∷ []
      ]
    ]
    else warns ∷ []
run_task alive tracked (answer pd handler) q = calls (invokes handler pd) ∷ []

-- The second function of `post`, if the workflow drops the first.
pub drop_task : Task → List Event
drop_task (request pd io_id handler wthis wtarget) =
    if is_empty handler then [] else calls (invokes handler none) ∷ []
drop_task (answer pd handler) = calls (invokes handler none) ∷ []
