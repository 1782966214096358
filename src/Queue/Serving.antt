-- ===== src/Queue/Serving.antt =====
-- That an io-queue serves what it takes: a request reaches the target or is answered with null, and
-- an answer reaches its handler.
use wfc_io.Prelude.{
  ℕ, ◌≡◌, refl, Bool, true, false, none, some, List, [], ◌∷◌, ◌++◌, arith, is, if◌then◌else◌, total,
}
use wfc_io.Iface.{
  DataPtr, Alive, lock, Handler, empty, external, is_empty, performs, invokes, ok, fault,
  null_pointer,
}
use wfc_io.Queue.{
  Queue, Task, request, Event, calls, posts, perform_io, make_handler, call_handler, run_task,
  drop_task,
}

-- What becomes of the events, if each posted function is run, or each is dropped.
abbrev pub settled : Bool → Alive → (ℕ → Bool) → Queue → List Event → List Event
settled kept alive tracked q [] = []
settled kept alive tracked q (posts w task ∷ es) =
    (if kept then run_task alive tracked task q else drop_task task)
    ++ settled kept alive tracked q es
settled kept alive tracked q (e ∷ es) = e ∷ settled kept alive tracked q es

-- How often a list of events calls a function from outside.
abbrev is_invocation : ℕ → Event → ℕ
is_invocation n (calls (invokes (external m) d)) = is n m
is_invocation n _ = 0

abbrev pub invocations : ℕ → List Event → ℕ
invocations n = total (is_invocation n)

-- A request to a queue that is not suspended and whose target is there is posted to the queue's own
-- workflow. If the workflow runs it later, while the queue is there and the identifier is tracked,
-- the target gets the message under its identifier if it is still there, with the handler that the
-- queue then makes; if the target is gone, or if the workflow drops the request, the handler gets
-- null. An empty handler is not called.
pub request_served :
    (alive alive2 : Alive) (tracked : ℕ → Bool) (d : DataPtr) (io_id t : ℕ) (handler : Handler)
    (q q2 : Queue)
    → q.suspended ≡ false
    → q.target ≡ some t
    → alive t ≡ true
    → alive2 q.self ≡ true
    → tracked io_id ≡ true
    → let refused = if is_empty handler then [] else calls (invokes handler none) ∷ [] in
      (task : Task) × (perform_io alive d io_id handler q ≡ ok (posts none task ∷ []))
      × (drop_task task ≡ refused)
      × (run_task alive2 tracked task q2 ≡ (
          if alive2 t then calls (performs t d io_id (make_handler handler q2)) ∷ [] else refused))
unfolding perform_io run_task drop_task
request_served alive alive2 tracked d io_id t handler q q2 active target there here still =
    (request d io_id handler (some q.self) q.target, ground arith, refl, ground arith)

-- An answer reaches the handler of the source, exactly once: whatever the queue was when it made
-- the handler and is when the answer comes, and whether the queue is still there, the answer is the
-- data that came, if the workflow for the answers runs what is posted to it. If that drops it, the
-- handler is called once all the same, with the data or with null.
pub answered_once :
    (alive : Alive) (tracked : ℕ → Bool) (d : DataPtr) (n : ℕ) (q q2 : Queue)
    → (settled true alive tracked q2 (call_handler alive (make_handler (external n) q) d q2)
        ≡ calls (invokes (external n) d) ∷ [])
      × (invocations n
            (settled false alive tracked q2 (call_handler alive (make_handler (external n) q) d q2))
          ≡ 1)
unfolding make_handler call_handler run_task drop_task
answered_once alive tracked d n q q2 = (ground arith, ground arith)

-- A queue whose target is gone, and an empty handler: a queue that is not suspended posts the
-- request, which does nothing if it runs while the queue is there, the target is gone and the
-- identifier is tracked; the same queue calls through the null pointer if it is suspended.
pub no_target :
    (alive : Alive) (tracked : ℕ → Bool) (d : DataPtr) (io_id : ℕ) (q q2 : Queue)
    → lock alive q.target ≡ none
    → tracked io_id ≡ true
    → (task : Task) × (perform_io alive d io_id empty (record q { suspended = false })
        ≡ ok (posts none task ∷ []))
      × (run_task alive tracked task q2 ≡ [])
      × (perform_io alive d io_id empty (record q { suspended = true }) ≡ fault null_pointer)
unfolding perform_io run_task
no_target alive tracked d io_id q q2 gone still =
    (request d io_id empty (some q.self) q.target, ground arith, ground arith, ground arith)
