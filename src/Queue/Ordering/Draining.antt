-- ===== src/Queue/Ordering/Draining.antt =====
-- That an io-queue of queue.cpp over a workflow of one thread serves every request, in the order in
-- which they are sent.
use mathlib.Core.List.{append_assoc, append-nil}
use wfc_io.Prelude.{
  ℕ, zero, suc, ◌+◌, ◌≤◌, ◌≡◌, refl, sym, ap, ◌∙◌, true, false, some, List, [], ◌∷◌, ◌++◌, map,
  arith, length, length-append, ◌⊎◌, inl, inr, Bool,
}
use wfc_io.Iface.{Alive, performs}
use wfc_io.Queue.{Queue, Task, request, Event, calls, perform_io, make_handler, run_task}
use wfc_io.Queue.Ordering.{
  Fifo, Message, Action, sends, ticks, Status, post_all, send, tick, run, sent, repeat_ticks,
}

-- The call of the target that a message comes to.
abbrev pub deliver : ℕ → Queue → Message → Event
deliver t q m = calls (performs t m.body m.io_id (make_handler m.handler q))

module _ (workflow : Fifo) (alive : Alive) (tracked : ℕ → Bool) (q : Queue) (t : ℕ)
    (active : q.suspended ≡ false) (target : q.target ≡ some t) (there : alive t ≡ true)
    (here : alive q.self ≡ true) (all_tracked : (io_id : ℕ) → tracked io_id ≡ true) where
  abbrev task_of : Message → Task
  task_of m = request m.body m.io_id m.handler (some q.self) q.target

  abbrev served : List Task → List Event
  served [] = []
  served (task ∷ tasks) = run_task alive tracked task q ++ served tasks

  served-append : (xs ys : List Task) → served (xs ++ ys) ≡ served xs ++ served ys
  served-append [] ys = refl
  served-append (x ∷ xs) ys =
      ap (◌++◌ (run_task alive tracked x q)) (served-append xs ys)
      ∙ sym (append_assoc (run_task alive tracked x q) (served xs) (served ys))

  run_task-deliver : (m : Message) → run_task alive tracked (task_of m) q ≡ deliver t q m ∷ []
  unfolding run_task
  run_task-deliver m = ground (arith, all_tracked m.io_id)

  abbrev Run : Type 0
  Run = Status workflow alive tracked q

  send-waits :
      (m : Message) (s : Run)
      → send workflow alive tracked q m s ≡ (workflow.post (task_of m) s.0, s.1)
  unfolding send post_all perform_io
  send-waits m s = ground arith

  -- What is called, with what is to be called for the requests that wait.
  abbrev settled : Run → List Event
  settled s = s.1 ++ served (workflow.waiting s.0)

  send-settled :
      (m : Message) (s : Run)
      → settled (send workflow alive tracked q m s) ≡ settled s ++ deliver t q m ∷ []
  send-settled m s =
      rw
        (
          send-waits m s,
          workflow.waiting-post (task_of m) s.0,
          served-append (workflow.waiting s.0) (task_of m ∷ []),
          run_task-deliver m,
        )
        (sym (append_assoc s.1 (served (workflow.waiting s.0)) (deliver t q m ∷ [])))

  -- The workflow has nothing to run, or runs what has waited longest.
  Ticked : Run → Run → Type 0
  Ticked s u =
      ((workflow.waiting s.0 ≡ []) × (u ≡ s))
      ⊎ ((task : Task) × (workflow.waiting s.0 ≡ task ∷ workflow.waiting u.0)
          × (u.1 ≡ s.1 ++ run_task alive tracked task q))

  tick-Ticked :
      (tasks : List Task) (s : Run)
      → workflow.waiting s.0 ≡ tasks
      → Ticked s (tick workflow alive tracked q s)
  unfolding tick Ticked
  tick-Ticked [] s e = inl (e, ground (arith, workflow.take_none s.0 e))
  tick-Ticked (task ∷ rest) s e =
      let (v, taken, left) = workflow.take_first s.0 task rest e in
      inr (task, rw (taken, tick) (e ∙ ap (◌∷◌ task) (sym left)), rw (taken, tick) refl)

  tick-cases : (s : Run) → Ticked s (tick workflow alive tracked q s)
  tick-cases s = tick-Ticked (workflow.waiting s.0) s refl

  tick-settled : (s : Run) → settled (tick workflow alive tracked q s) ≡ settled s
  unfolding Ticked
  tick-settled s = elim (tick-cases s) [
    | inl (e, same) ↦ rw same
    | inr (task, e, called) ↦
        rw (called, e)
          (append_assoc s.1 (run_task alive tracked task q)
            (served (workflow.waiting (tick workflow alive tracked q s).0)))
  ]

  run-settled :
      (acts : List Action) (s : Run)
      → settled (run workflow alive tracked q acts s) ≡ settled s ++ map (deliver t q) (sent acts)
  unfolding run
  run-settled [] s = sym (append-nil (settled s))
  run-settled (sends m ∷ acts) s =
      let later = map (deliver t q) (sent acts) in
      run-settled acts (send workflow alive tracked q m s)
      ∙ ap (λ es. es ++ later) (send-settled m s)
      ∙ append_assoc (settled s) (deliver t q m ∷ []) later
  run-settled (ticks ∷ acts) s =
      run-settled acts (tick workflow alive tracked q s)
      ∙ ap (λ es. es ++ map (deliver t q) (sent acts)) (tick-settled s)

  ticks-settled :
      (k : ℕ) (s : Run) → settled (run workflow alive tracked q (repeat_ticks k) s) ≡ settled s
  unfolding run
  ticks-settled zero s = refl
  ticks-settled (suc k) s = ticks-settled k (tick workflow alive tracked q s) ∙ tick-settled s

  -- How many requests wait.
  abbrev backlog : Run → ℕ
  backlog s = length (workflow.waiting s.0)

  send-backlog :
      (m : Message) (s : Run) → backlog (send workflow alive tracked q m s) ≡ suc (backlog s)
  send-backlog m s =
      rw (send-waits m s, workflow.waiting-post (task_of m) s.0)
        (omega (arith, length-append (workflow.waiting s.0) (task_of m ∷ [])))

  run-backlog :
      (acts : List Action) (s : Run)
      → backlog (run workflow alive tracked q acts s) ≤ backlog s + length (sent acts)
  unfolding run Ticked
  run-backlog [] s = omega arith
  run-backlog (sends m ∷ acts) s =
      omega (arith, run-backlog acts (send workflow alive tracked q m s), send-backlog m s)
  run-backlog (ticks ∷ acts) s =
      ground (arith, run-backlog acts (tick workflow alive tracked q s), tick-cases s)

  ticks-backlog :
      (k : ℕ) (s : Run)
      → backlog s ≤ k
      → workflow.waiting (run workflow alive tracked q (repeat_ticks k) s).0 ≡ []
  unfolding run Ticked
  ticks-backlog zero s h = ground arith
  ticks-backlog (suc k) s h =
      ticks-backlog k (tick workflow alive tracked q s) (ground (arith, tick-cases s))

  -- Every request is served, in the order in which they are sent: a queue that is not suspended,
  -- while it and its target are there and every identifier is tracked, over a workflow of one
  -- thread that had nothing to run. After any sequence of requests and of functions that the
  -- workflow runs, and at least as many functions more as there were requests, nothing waits, and
  -- what was called is the target, once for each request, with the message, its identifier and the
  -- handler that the queue makes, in the order of the requests.
  pub all_served_in_order :
      (acts : List Action) (k : ℕ) (w : workflow.State)
      → workflow.waiting w ≡ []
      → length (sent acts) ≤ k
      → let s = run workflow alive tracked q acts (w, []) in
        let u = run workflow alive tracked q (repeat_ticks k) s in
        (workflow.waiting u.0 ≡ []) × (u.1 ≡ map (deliver t q) (sent acts))
  all_served_in_order acts k w idle enough =
      let s = run workflow alive tracked q acts (w, []) in
      let u = run workflow alive tracked q (repeat_ticks k) s in
      let drained = ticks-backlog k s (ground (arith, run-backlog acts (w, []), idle)) in
      (
        drained,
        sym (append-nil u.1)
            ∙ sym (ap (λ tasks. u.1 ++ served tasks) drained)
            ∙ ticks-settled k s
            ∙ run-settled acts (w, [])
            ∙ ap (λ tasks. served tasks ++ map (deliver t q) (sent acts)) idle,
      )
