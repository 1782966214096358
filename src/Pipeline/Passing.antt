-- ===== src/Pipeline/Passing.antt =====
-- That a chain of components passes a message on, and the answer back.
use mathlib.Core.List.{append-nil, flat_map}
use wfc_io.Prelude.{
  ℕ, ◌≡◌, refl, ap, ◌∙◌, Bool, true, false, none, some, List, [], ◌∷◌, arith, Bool-cases,
  Option-cases, length, inl, inr,
}
use wfc_io.Iface.{
  DataPtr, Alive, lock, Handler, external, measured, requeued, is_empty, Call, performs, invokes,
  ok, fault,
}
use wfc_io.Statistics
use wfc_io.Queue
use wfc_io.Queue.Serving.{settled}
use wfc_io.Broker
use wfc_io.Pipeline.{
  statistics_calls, queue_calls, broker_calls, Component, statistics, queue, broker, Stage, carry,
  enter, through,
}

module _ (alive : Alive) (tracked : ℕ → Bool) where
  -- A call of the handler with the data ends in one call of the function `n` from outside, with the
  -- same data: a closure of a component calls, by that component's code, the handler that it wraps,
  -- and that ends so. A queue may have any state by then.
  pub data Answers (n : ℕ) (d : DataPtr) : Handler → Type 0 where
    called : Answers n d (external n)
    through_statistics :
        {m : ℕ} {h : Handler} {fs : List Statistics.Event}
        → Statistics.call_handler (measured m h) d ≡ ok fs
        → statistics_calls fs ≡ invokes h d ∷ []
        → Answers n d h
        → Answers n d (measured m h)
    through_queue :
        {self : ℕ} {h : Handler}
        → ((q : Queue.Queue)
            → queue_calls
                (settled true alive tracked q (Queue.call_handler alive (requeued self h) d q))
              ≡ invokes h d ∷ [])
        → Answers n d h
        → Answers n d (requeued self h)

  Answers-nonempty : {n : ℕ} {d : DataPtr} {h : Handler} → Answers n d h → is_empty h ≡ false
  Answers-nonempty called = refl
  Answers-nonempty (through_statistics e f a) = refl
  Answers-nonempty (through_queue f a) = refl

  measured-Answers :
      {n : ℕ} {d : DataPtr} {h : Handler} (m : ℕ) → Answers n d h → Answers n d (measured m h)
  unfolding Statistics.call_handler
  measured-Answers {n} {d = none} {h} m a =
      through_statistics {fs = Statistics.calls (invokes h none) ∷ []}
        (ground (arith, Answers-nonempty a)) refl a
  measured-Answers {n} {d = some bytes} {h} m a =
      through_statistics
        {fs = Statistics.write_size m (length bytes)
          ∷ Statistics.calls (invokes h (some bytes))
          ∷ []}
        (ground (arith, Answers-nonempty a)) refl a

  requeued-Answers :
      {n : ℕ} {d : DataPtr} {h : Handler} (self : ℕ) → Answers n d h → Answers n d (requeued self h)
  unfolding Queue.call_handler Queue.run_task
  requeued-Answers {n} {d} {h} self a = through_queue (λ q. ground arith) a

  -- What a message becomes: it goes to the next object, with a handler that ends the same way.
  abbrev Carries : ℕ → DataPtr → DataPtr → ℕ → Handler → ℕ → List Call → Type 0
  Carries n reply d id h next cs =
      (g : Handler) × (cs ≡ performs next d id g ∷ []) × Answers n reply g

  statistics-Carries :
      (n : ℕ) (reply d : DataPtr) (id : ℕ) (h : Handler) (next : ℕ) (s : Statistics.Statistics)
      → lock alive s.target ≡ some next
      → Answers n reply h
      → Carries n reply d id h next (statistics_calls (Statistics.perform_io alive d id h s).1)
  unfolding Statistics.perform_io Statistics.measure
  statistics-Carries n reply none id h next s there a = (h, ground arith, a)
  statistics-Carries n reply (some bytes) id h next s there a = elim (Bool-cases s.suspended) [
    | inl off ↦ (h, ground arith, a)
    | inr on ↦ elim (Bool-cases s.has_statistics) [
      | inl has ↦ (measured s.next_meter h, ground arith, measured-Answers s.next_meter a)
      | inr without ↦ (h, ground arith, a)
    ]
  ]

  queue_carried : DataPtr → ℕ → Handler → Queue.Queue → List Call
  queue_carried d id h q = elim (Queue.perform_io alive d id h q) [
    | ok es ↦ queue_calls (settled true alive tracked q es)
    | fault f ↦ []
  ]

  queue-Carries :
      (n : ℕ) (reply d : DataPtr) (id : ℕ) (h : Handler) (next : ℕ) (q : Queue.Queue)
      → lock alive q.target ≡ some next
      → alive q.self ≡ true
      → tracked id ≡ true
      → Answers n reply h
      → Carries n reply d id h next (queue_carried d id h q)
  unfolding queue_carried Queue.perform_io Queue.run_task Queue.make_handler
  queue-Carries n reply d id h next q there here tracks a = elim (Bool-cases q.suspended) [
    | inl off ↦ (h, ground arith, a)
    | inr on ↦ elim (Option-cases q.callback_workflow) [
      | inl direct ↦ (h, ground arith, a)
      | inr (w, posts) ↦
          (requeued q.self h, ground (arith, Answers-nonempty a), requeued-Answers q.self a)
    ]
  ]

module _ (env : Broker.Env) (alive : Alive) (tracked : ℕ → Bool) where
  -- The default target of a broker and those of all its rules are one object.
  abbrev pub BrokerLeads : Broker.Broker env → ℕ → Type 0
  BrokerLeads b next =
      (lock alive b.target ≡ some next)
      × ((bytes : List ℕ) (r : Broker.RuleTarget env)
          → Broker.find_rule env bytes b.rules ≡ some r
          → lock alive r.target ≡ some next)

  broker-Carries :
      (n : ℕ) (reply d : DataPtr) (id : ℕ) (h : Handler) (next : ℕ) (b : Broker.Broker env)
      → BrokerLeads b next
      → Answers alive tracked n reply h
      → Carries alive tracked n reply d id h next
          (broker_calls (Broker.perform_io env alive d id h b))
  unfolding Broker.perform_io Broker.dispatch Broker.send_to Broker.broker_log
  broker-Carries n reply none id h next b there a = (h, ground (arith, there.0), a)
  broker-Carries n reply (some bytes) id h next b there a =
      elim (Option-cases (Broker.find_rule env bytes b.rules)) [
        | inl default ↦ (h, ground (arith, there.0), a)
        | inr (r, rule) ↦ (h, ground (arith, there.0, there.1 bytes r rule), a)
      ]

  -- The component passes on to the object, and is there.
  abbrev pub LeadsTo : Component env → ℕ → Type 0
  LeadsTo (statistics s) next = lock alive s.target ≡ some next
  LeadsTo (queue q) next = (lock alive q.target ≡ some next) × (alive q.self ≡ true)
  LeadsTo (broker b) next = BrokerLeads b next

  -- The object to which a message for the chain goes.
  abbrev pub entry : List (Stage env) → ℕ → ℕ
  entry [] t = t
  entry (x ∷ xs) t = x.number

  -- Each stage leads to the next, and the last to the object `t`.
  abbrev pub Leads : List (Stage env) → ℕ → Type 0
  Leads [] t = Unit
  Leads (x ∷ xs) t = LeadsTo x.component (entry xs t) × Leads xs t

  carry-Carries :
      (n : ℕ) (reply d : DataPtr) (id : ℕ) (h : Handler) (next : ℕ) (c : Component env)
      → LeadsTo c next
      → tracked id ≡ true
      → Answers alive tracked n reply h
      → Carries alive tracked n reply d id h next (carry env alive tracked c d id h)
  unfolding carry queue_carried
  carry-Carries n reply d id h next (statistics s) l k a =
      statistics-Carries alive tracked n reply d id h next s l a
  carry-Carries n reply d id h next (queue q) l k a =
      queue-Carries alive tracked n reply d id h next q l.0 l.1 k a
  carry-Carries n reply d id h next (broker b) l k a = broker-Carries n reply d id h next b l a

  enter_own :
      (x : Stage env) (next : Call → List Call) (d : DataPtr) (id : ℕ) (h : Handler)
      → enter env alive tracked x next (performs x.number d id h)
        ≡ flat_map next (carry env alive tracked x.component d id h)
  unfolding enter
  enter_own x next d id h = ground arith

  through-Carries :
      (xs : List (Stage env)) (n : ℕ) (reply d : DataPtr) (id : ℕ) (h : Handler) (t : ℕ)
      → Leads xs t
      → tracked id ≡ true
      → Answers alive tracked n reply h
      → Carries alive tracked n reply d id h t
          (through env alive tracked xs (performs (entry xs t) d id h))
  unfolding through flat_map
  through-Carries [] n reply d id h t l k a = (h, refl, a)
  through-Carries (x ∷ xs) n reply d id h t l k a =
      let (g, e, b) = carry-Carries n reply d id h (entry xs t) x.component l.0 k a in
      let (f, e', c) = through-Carries xs n reply d id g t l.1 k b in
      (
        f,
        enter_own x (through env alive tracked xs) d id h
            ∙ ap (flat_map (through env alive tracked xs)) e
            ∙ append-nil (through env alive tracked xs (performs (entry xs t) d id g))
            ∙ e',
        c,
      )

  -- A chain that nobody notices: through statistics, queues and brokers behind one another, any
  -- number of them and in any order, whether or not they are suspended, where each queue is there
  -- and runs what it posts, and the target of each, with a broker its default target and those of
  -- all its rules, is there and is the next, a message whose identifier is tracked reaches the
  -- object at the end, once, unchanged and under its identifier. What the object then answers,
  -- through the handler that it is given, is one call of the function that the sender gave, with
  -- the answer unchanged.
  pub chain_passes :
      (xs : List (Stage env)) (t n : ℕ) (d reply : DataPtr) (id : ℕ)
      → Leads xs t
      → tracked id ≡ true
      → (h : Handler) × (through env alive tracked xs (performs (entry xs t) d id (external n))
          ≡ performs t d id h ∷ [])
        × Answers alive tracked n reply h
  chain_passes xs t n d reply id l k = through-Carries xs n reply d id (external n) t l k called
