-- ===== src/Queue/Tests.antt =====
-- The theorems on queue.cpp at a concrete queue.
use wfc_io.Prelude.{
  Option, List, ◌++◌, map, ℕ, ◌≡◌, refl, ap, arith, Bool, true, false, none, some, [], ◌∷◌, ◌==◌,
  if◌then◌else◌,
}
use wfc_io.Iface.{Alive, empty, external, is_empty, performs, invokes, ok}
use wfc_io.Queue.{
  Queue, Task, calls, posts, default_config, initialize, perform_io, make_handler, call_handler,
  run_task, drop_task,
}
use wfc_io.Queue.Ordering.{Fifo, Action, sends, ticks, run, sent, repeat_ticks}
use wfc_io.Queue.Ordering.Draining.{deliver, all_served_in_order}
use wfc_io.Queue.Serving.{request_served, answered_once, settled, invocations}

-- All objects are there, and all but the target.
abbrev all : Alive
all n = true

abbrev all_but_target : Alive
all_but_target n = if n == 5 then false else true

abbrev tracked : ℕ → Bool
tracked n = true

-- An object 2 with the target 5, and the workflow 8 for answers.
abbrev queue : Queue
queue = record {
  self = 2;
  suspended = false;
  options = record (default_config "t" "w") { callback_queue = true };
  target = some 5;
  callback_workflow = some 8;
}

initialized :
    initialize
      (λ s. some 5)
      (λ s. some 8)
      (record queue { target = none; callback_workflow = none })
    ≡ queue
unfolding initialize
initialized = refl

request_served_example :
    let refused = if is_empty (external 1) then [] else calls (invokes (external 1) none) ∷ [] in
    (task : Task) × (perform_io all (some (9 ∷ [])) 7 (external 1) queue
      ≡ ok (posts none task ∷ []))
    × (drop_task task ≡ refused)
    × (run_task all_but_target tracked task queue ≡ (
        if all_but_target 5
        then calls (performs 5 (some (9 ∷ [])) 7 (make_handler (external 1) queue)) ∷ []
        else refused))
request_served_example =
    request_served all all_but_target tracked (some (9 ∷ [])) 7 5 (external 1) queue queue refl refl
      refl refl refl

answered_once_example :
    (settled true all tracked queue
        (call_handler all (make_handler (external 1) queue) (some (9 ∷ [])) queue)
      ≡ calls (invokes (external 1) (some (9 ∷ []))) ∷ [])
    × (invocations 1 (
          settled false all tracked queue
            (call_handler all (make_handler (external 1) queue) (some (9 ∷ [])) queue))
        ≡ 1)
answered_once_example = answered_once all tracked (some (9 ∷ [])) 1 queue queue

-- A workflow of one thread, as a list.
abbrev first_of : List Task → Option (Task × List Task)
first_of [] = none
first_of (task ∷ rest) = some (task, rest)

abbrev list_workflow : Fifo
list_workflow = record {
  State = List Task;
  post = λ task w. w ++ task ∷ [];
  take_next = first_of;
  waiting = λ w. w;
  waiting-post = λ task w. refl;
  take_none = λ w e. ap first_of e;
  take_first = λ w task rest e. (rest, ap first_of e, refl);
}

-- Three requests, while the workflow runs one function.
abbrev busy : List Action
busy =
    sends (record { body = some (1 ∷ []); io_id = 7; handler = external 1 })
    ∷ sends (record { body = some (2 ∷ []); io_id = 8; handler = external 2 })
    ∷ ticks
    ∷ sends (record { body = none; io_id = 7; handler = empty })
    ∷ []

all_served_in_order_example :
    let s = run list_workflow all tracked queue busy ([], []) in
    let u = run list_workflow all tracked queue (repeat_ticks 3) s in
    (list_workflow.waiting u.0 ≡ []) × (u.1 ≡ map (deliver 5 queue) (sent busy))
all_served_in_order_example =
    all_served_in_order list_workflow all tracked queue 5 refl refl refl refl (λ n. refl) busy 3 []
      refl (omega arith)
