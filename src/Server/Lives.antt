-- ===== src/Server/Lives.antt =====
-- What server_tcp.cpp and server_udp.cpp have in common: an object that has one server at a time,
-- and its life, in which it is started, configured anew and restarted, stopped, and started again.
use wfc_io.Prelude.{
  ℕ, ◌+◌, ◌≤◌, ◌<◌, ◌≡◌, refl, Bool, Option, none, some, List, [], ◌∷◌, ◌++◌, arith, is, total,
  total-append, ◌∙◌,
}
use wfc_io.Iface.{Result, ok, ◌>>=◌}

-- The operations of such an object. The Boolean says whether the start of the server throws.
pub record Runner (S O E : Type 0) : Type 0 where
  pub configure : O → S → S
  pub start : Bool → S → S × List E
  pub restart : Bool → S → Result (S × List E)
  pub stop : S → S × List E

-- New options, and whether the start of the server throws.
pub record Change (O : Type 0) : Type 0 where
  pub options : O
  pub throws : Bool

-- From a start to a stop.
pub record Session (O : Type 0) : Type 0 where
  pub first_throws : Bool
  pub changes : List (Change O)

-- A property of all of a list.
abbrev pub All : {E : Type 0} → (E → Type 0) → List E → Type 0
All P [] = Unit
All P (e ∷ es) = P e × All P es

pub All-append :
    {E : Type 0} (P : E → Type 0) (es fs : List E) → All P es → All P fs → All P (es ++ fs)
All-append P [] fs a b = b
All-append P (e ∷ es) fs a b = (a.0, All-append P es fs a.1 b)

-- What is seen of an object: its server, the number of its next one, which events start and stop a
-- server, what it keeps, and what holds of each event.
pub record View (S E : Type 0) : Type 1 where
  pub impl : S → Option ℕ
  pub next : S → ℕ
  pub is_start : ℕ → E → ℕ
  pub is_stop : ℕ → E → ℕ
  pub IsReady : S → Type 0
  pub Fits : E → Type 0

-- How often an object holds a server.
abbrev pub held : {S E : Type 0} → View S E → ℕ → S → ℕ
held v n s = elim (v.impl s) [ none ↦ 0 | some m ↦ is n m ]

abbrev pub started : {S E : Type 0} → View S E → ℕ → List E → ℕ
started v n = total (v.is_start n)

abbrev pub stopped : {S E : Type 0} → View S E → ℕ → List E → ℕ
stopped v n = total (v.is_stop n)

-- Servers are started with new numbers, once, and one is started and not yet stopped as often as it
-- is held.
pub record Grows {S E : Type 0} (v : View S E) (s : S) (es : List E) (t : S) : Type 0 where
  pub balance : (n : ℕ) → started v n es + held v n s ≡ stopped v n es + held v n t
  pub once : (n : ℕ) → started v n es ≤ 1
  pub above : (n : ℕ) → n < v.next s → started v n es ≡ 0
  pub below : (n : ℕ) → v.next t ≤ n → started v n es ≡ 0
  pub grows : v.next s ≤ v.next t
  pub ready : v.IsReady t
  pub fits : All v.Fits es

pub Grows-trans :
    {S E : Type 0} (v : View S E) {s t u : S} (es fs : List E)
    → Grows v s es t
    → Grows v t fs u
    → Grows v s (es ++ fs) u
Grows-trans v es fs g h = record {
  balance = λ n. omega (
    arith,
    total-append (v.is_start n) es fs,
    total-append (v.is_stop n) es fs,
    g.balance n,
    h.balance n,
  );
  once = λ n.
      ground (arith, total-append (v.is_start n) es fs, g.once n, h.once n, g.below n, h.above n);
  above = λ n p.
      omega
        (arith, total-append (v.is_start n) es fs, g.above n p, h.above n (omega (arith, g.grows)));
  below = λ n p.
      omega
        (arith, total-append (v.is_start n) es fs, h.below n p, g.below n (omega (arith, h.grows)));
  grows = omega (arith, g.grows, h.grows);
  ready = h.ready;
  fits = All-append v.Fits es fs g.fits h.fits;
}

-- What the operations do, each to an object that is ready. New options alone neither start nor stop
-- a server.
pub record Laws {S O E : Type 0} (r : Runner S O E) (v : View S E) : Type 1 where
  pub configures_ready : (o : O) (s : S) → v.IsReady s → v.IsReady (r.configure o s)
  pub configures_impl : (o : O) (s : S) → v.impl (r.configure o s) ≡ v.impl s
  pub configures_next : (o : O) (s : S) → v.next (r.configure o s) ≡ v.next s
  pub starts :
      (throws : Bool) (s : S)
      → v.IsReady s
      → v.impl s ≡ none
      → Grows v s (r.start throws s).1 (r.start throws s).0
        × (n : ℕ) × (v.impl (r.start throws s).0 ≡ some n)
  pub restarts :
      (throws : Bool) (old : ℕ) (s : S)
      → v.IsReady s
      → v.impl s ≡ some old
      → (t : S) × (es : List E) × (r.restart throws s ≡ ok (t, es))
        × Grows v s es t
        × (n : ℕ) × (v.impl t ≡ some n)
  pub stops :
      (s : S) → v.IsReady s → Grows v s (r.stop s).1 (r.stop s).0 × (v.impl (r.stop s).0 ≡ none)

module _ {S O E : Type 0} (r : Runner S O E) where
  pub run_changes : List (Change O) → S → Result (S × List E)
  run_changes [] s = ok (s, [])
  run_changes (c ∷ cs) s = do
    (t, es) ← r.restart c.throws (r.configure c.options s)
    (u, fs) ← run_changes cs t
    ok (u, es ++ fs)

  pub run_session : Session O → S → Result (S × List E)
  unfolding run_changes
  run_session session s = do
    let (t, es) = r.start session.first_throws s
    (u, fs) ← run_changes session.changes t
    let (v, gs) = r.stop u
    ok (v, es ++ fs ++ gs)

  pub run_sessions : List (Session O) → S → Result (S × List E)
  unfolding run_session
  run_sessions [] s = ok (s, [])
  run_sessions (x ∷ xs) s = do
    (t, es) ← run_session x s
    (u, fs) ← run_sessions xs t
    ok (u, es ++ fs)

module _ {S O E : Type 0} {r : Runner S O E} {v : View S E} (laws : Laws r v) where
  nothing-Grows : (s : S) → v.IsReady s → Grows v s [] s
  nothing-Grows s ready = record {
    balance = λ n. refl;
    once = λ n. omega arith;
    above = λ n h. refl;
    below = λ n h. refl;
    grows = omega arith;
    ready = ready;
    fits = tt;
  }

  configured :
      (o : O) (s : S) (es : List E) (t : S) → Grows v (r.configure o s) es t → Grows v s es t
  configured o s es t g = record {
    balance = λ n. rw⁻¹ (laws.configures_impl o s, held) (g.balance n);
    once = g.once;
    above = λ n h. g.above n (rw (laws.configures_next o s) h);
    below = g.below;
    grows = omega (arith, g.grows, laws.configures_next o s);
    ready = g.ready;
    fits = g.fits;
  }

  -- Changes of a running object, which is left running.
  run_changes-Grows :
      (cs : List (Change O)) (old : ℕ) (s : S)
      → v.IsReady s
      → v.impl s ≡ some old
      → (t : S) × (es : List E) × (run_changes r cs s ≡ ok (t, es)) × Grows v s es t
  unfolding run_changes
  run_changes-Grows [] old s ready has = (s, [], refl, nothing-Grows s ready)
  run_changes-Grows (c ∷ cs) old s ready has =
      let (t, first, e, g, n, now) =
        laws.restarts c.throws old (r.configure c.options s)
          (laws.configures_ready c.options s ready) (laws.configures_impl c.options s ∙ has) in
      let (u, es, f, h) = run_changes-Grows cs n t g.ready now in
      (u, first ++ es, rw e (rw f), Grows-trans v first es (configured c.options s first t g) h)

  run_session-Grows :
      (x : Session O) (s : S)
      → v.IsReady s
      → v.impl s ≡ none
      → (t : S) × (es : List E) × (run_session r x s ≡ ok (t, es))
        × (v.impl t ≡ none)
        × Grows v s es t
  unfolding run_session
  run_session-Grows x s ready off =
      let (t, es) = r.start x.first_throws s in
      let (g, n, now) = laws.starts x.first_throws s ready off in
      let (u, fs, e, h) = run_changes-Grows x.changes n t g.ready now in
      let (i, off') = laws.stops u h.ready in
      (
        (r.stop u).0,
        es ++ fs ++ (r.stop u).1,
        rw e,
        off',
        Grows-trans v (es ++ fs) (r.stop u).1 (Grows-trans v es fs g h) i,
      )

  pub sessions-Grows :
      (xs : List (Session O)) (s : S)
      → v.IsReady s
      → v.impl s ≡ none
      → (t : S) × (es : List E) × (run_sessions r xs s ≡ ok (t, es))
        × (v.impl t ≡ none)
        × Grows v s es t
  unfolding run_sessions
  sessions-Grows [] s ready off = (s, [], refl, off, nothing-Grows s ready)
  sessions-Grows (x ∷ xs) s ready off =
      let (t, es, e, off', g) = run_session-Grows x s ready off in
      let (u, fs, f, off'', h) = sessions-Grows xs t g.ready off' in
      (u, es ++ fs, rw e (rw f), off'', Grows-trans v es fs g h)
