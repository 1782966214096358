-- ===== src/Queue/Ordering.antt =====
-- package/queue/queue/queue.cpp with its workflow: the requests that wait, and in which order the
-- target gets them.
pub mod Draining
use wfc_io.Prelude.{
  ℕ, zero, suc, ◌+◌, ◌≤◌, ◌≡◌, refl, sym, ap, ◌∙◌, Bool, true, false, Option, none, some, List, [],
  ◌∷◌, ◌++◌, map, arith, length, length-append,
}
use wfc_io.Iface.{DataPtr, Alive, Handler, performs, Result, ok, fault}
use wfc_io.Queue.{Queue, Task, request, Event, calls, posts, perform_io, make_handler, run_task}

-- What is relied on of a workflow of one thread, which is not in this repository: what is posted
-- waits at the end, and what has waited longest runs next.
pub record Fifo : Type 1 where
  pub State : Type 0
  pub post : Task → State → State
  pub take_next : State → Option (Task × State)
  pub waiting : State → List Task
  pub waiting-post : (task : Task) (w : State) → waiting (post task w) ≡ waiting w ++ task ∷ []
  pub take_none : (w : State) → waiting w ≡ [] → take_next w ≡ none
  pub take_first :
      (w : State) (task : Task) (rest : List Task)
      → waiting w ≡ task ∷ rest
      → (v : State) × (take_next w ≡ some (task, v)) × (waiting v ≡ rest)

-- What a source asks of the queue.
pub record Message : Type 0 where
  pub body : DataPtr
  pub io_id : ℕ
  pub handler : Handler

-- A source sends, or the workflow runs a function.
pub data Action : Type 0 where
  sends : Message → Action
  ticks : Action

module _ (workflow : Fifo) (alive : Alive) (tracked : ℕ → Bool) (q : Queue) where
  -- The workflow, and what has been called so far.
  abbrev pub Status : Type 0
  Status = workflow.State × List Event

  unfoldable pub post_all : List Event → Status → Status
  post_all [] s = s
  post_all (posts none task ∷ es) (w, done) = post_all es (workflow.post task w, done)
  post_all (e ∷ es) (w, done) = post_all es (w, done ++ e ∷ [])

  -- A fault ends the operation.
  unfoldable pub send : Message → Status → Status
  unfolding post_all
  send m s = elim (perform_io alive m.body m.io_id m.handler q) [
    | ok es ↦ post_all es s
    | fault f ↦ s
  ]

  unfoldable pub tick : Status → Status
  tick (w, done) = elim (workflow.take_next w) [
    | none ↦ (w, done)
    | some (task, v) ↦ (v, done ++ run_task alive tracked task q)
  ]

  unfoldable pub run : List Action → Status → Status
  unfolding send tick
  run [] s = s
  run (sends m ∷ acts) s = run acts (send m s)
  run (ticks ∷ acts) s = run acts (tick s)

-- The messages that are sent.
abbrev pub sent : List Action → List Message
sent [] = []
sent (sends m ∷ acts) = m ∷ sent acts
sent (ticks ∷ acts) = sent acts

abbrev pub repeat_ticks : ℕ → List Action
repeat_ticks zero = []
repeat_ticks (suc k) = ticks ∷ repeat_ticks k
