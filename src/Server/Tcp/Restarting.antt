-- ===== src/Server/Tcp/Restarting.antt =====
-- What happens to the servers and timers of a server_tcp object that restarts and stops.
use text.Mathlib.Text.{◌==◌ as str_eq}
use wfc_io.Prelude.{
  ℕ, suc, ◌≤◌, ◌<◌, ◌≡◌, refl, Bool, true, ◌&&◌, none, some, List, [], ◌∷◌, ◌++◌, arith, is,
  if◌then◌else◌, total, total-append, length, ◌⊎◌, inl, inr, Bool-cases,
}
use wfc_io.Iface.{Alive, Result, ok, fault, null_pointer, ◌>>=◌}
use wfc_io.Stat.{ConnectionStat, MeterNames}
use wfc_io.Workflow.{release, create, Own, release-Own, create-Own}
use wfc_io.Server.Tcp.{
  ServerTcp, Event, starts, stops, posts_stop, start_timer, stat_init, run, start, stop_old,
  run_posted, restart, stop, on_timer, run_options,
}

-- How often a list of events starts a server, and stops it at once or in a posted function.
abbrev pub is_start : ℕ → Event → ℕ
is_start n (starts m opt) = is n m
is_start n _ = 0

abbrev pub is_stop : ℕ → Event → ℕ
is_stop n (stops m) = is n m
is_stop n (posts_stop (some m)) = is n m
is_stop n _ = 0

abbrev pub started : ℕ → List Event → ℕ
started n = total (is_start n)

abbrev pub stopped : ℕ → List Event → ℕ
stopped n = total (is_stop n)

-- What `stat_init_` comes to.
record Quiet (s : ServerTcp) (r : ServerTcp × List Event) : Type 0 where
  next : r.0.next ≡ s.next
  starts_none : (n : ℕ) → started n r.1 ≡ 0
  stops_none : (n : ℕ) → stopped n r.1 ≡ 0
  impl : r.0.impl ≡ s.impl
  own : Own s.timer_id s.timers → Own r.0.timer_id r.0.timers

stat_init-Quiet : (s : ServerTcp) → Quiet s (stat_init s)
unfolding stat_init start_timer
stat_init-Quiet s = record {
  next = ground arith;
  starts_none = λ n. ground arith;
  stops_none = λ n. ground arith;
  impl = ground arith;
  own = λ o.
      let idle = release-Own s.timer_id s.timers o in
      let made = create-Own (release s.timer_id s.timers) idle in ground (arith, idle, made);
}

-- What `run_` comes to.
pub record Runs (s : ServerTcp) (r : ServerTcp × List Event) : Type 0 where
  pub next : r.0.next ≡ suc s.next
  pub starts_one : (n : ℕ) → started n r.1 ≡ is n s.next
  pub stops_none : (n : ℕ) → stopped n r.1 ≡ 0
  pub impl : r.0.impl ≡ some s.next
  pub own : Own s.timer_id s.timers → Own r.0.timer_id r.0.timers

pub run-Runs : (throws : Bool) (s : ServerTcp) → Runs s (run throws s)
unfolding run
run-Runs throws s =
    let begun = record s {
      port = s.options.port;
      addr = s.options.addr;
      impl = some s.next;
      next = suc s.next;
    } in
    let q = stat_init-Quiet begun in
    let es = (stat_init begun).1 in
    let first = starts s.next (run_options s) ∷ [] in
    record {
      next = q.next;
      starts_one = λ n. ground (
        arith,
        q.starts_none n,
        total-append (is_start n) es first,
        total-append (is_start n) (es ++ first) (if throws then Event.fatal ∷ [] else []),
      );
      stops_none = λ n. ground (
        arith,
        q.stops_none n,
        total-append (is_stop n) es first,
        total-append (is_stop n) (es ++ first) (if throws then Event.fatal ∷ [] else []),
      );
      impl = q.impl;
      own = q.own;
    }

abbrev pub idle : ServerTcp → ServerTcp
idle s = record s { impl = none }

abbrev pub ended : ℕ → ServerTcp → List Event
ended old s =
    if str_eq s.port s.options.port && str_eq s.addr s.options.addr
    then stops old ∷ []
    else posts_stop (some old) ∷ []

pub restart_eq :
    (throws : Bool) (old : ℕ) (s : ServerTcp)
    → s.impl ≡ some old
    → restart throws s ≡ ok ((run throws (idle s)).0, ended old s ++ (run throws (idle s)).1)
unfolding restart stop_old
restart_eq throws old s has = ground (arith, has)

-- A restart of an object with a server returns: the server is stopped, at once or in a posted
-- function, one new server is started, no other is started or stopped, and the new server is the
-- object's.
pub restart_one :
    (throws : Bool) (n old : ℕ) (s : ServerTcp)
    → s.impl ≡ some old
    → (t : ServerTcp) × (es : List Event) × (restart throws s ≡ ok (t, es))
      × (started n es ≡ is n s.next)
      × (stopped n es ≡ is n old)
      × (t.impl ≡ some s.next)
restart_one throws n old s has =
    let r = run-Runs throws (idle s) in
    let fs = (run throws (idle s)).1 in
    (
      (run throws (idle s)).0,
      ended old s ++ fs,
      restart_eq throws old s has,
      ground (arith, r.starts_one n, total-append (is_start n) (ended old s) fs),
      ground (arith, r.stops_none n, total-append (is_stop n) (ended old s) fs),
      r.impl,
    )

-- Restarts one after the other, with whether the start of the server throws.
pub restarts : List Bool → ServerTcp → Result ServerTcp
restarts [] s = ok s
restarts (throws ∷ rest) s = do (t, es) ← restart throws s; restarts rest t

-- However often an object with a server restarts, it does not fail and runs at most one timer, if
-- it ran at most its own before.
pub restarts-one_timer :
    (throws : List Bool) (old : ℕ) (s : ServerTcp)
    → s.impl ≡ some old
    → Own s.timer_id s.timers
    → (t : ServerTcp) × (restarts throws s ≡ ok t) × (length t.timers.running ≤ 1)
unfolding restarts
restarts-one_timer [] old s has own = (s, refl, ground arith)
restarts-one_timer (throws ∷ rest) old s has own =
    let r = run-Runs throws (idle s) in
    let (t, e, one) = restarts-one_timer rest s.next (run throws (idle s)).0 r.impl (r.own own) in
    (t, rw (restarts, restart_eq throws old s has) e, one)

-- The timer outlives the server: after a start, of an object with statistics and a period that is
-- not 0, and a stop, exactly one timer runs, if at most the object's own ran before, and its
-- closure calls through the null pointer as long as the object and its statistics are there.
pub timer_after_stop :
    (alive : Alive) (throws : Bool) (stat : ConnectionStat) (names : MeterNames) (s : ServerTcp)
    → s.statistics ≡ some names
    → 0 < names.tracking_ms
    → Own s.timer_id s.timers
    → alive s.self ≡ true
    → let t = (stop (start throws s).0).0 in
      (length t.timers.running ≡ 1) × (on_timer alive true stat t ≡ fault null_pointer)
unfolding start run stat_init start_timer stop on_timer create
timer_after_stop alive throws stat names s has period own there =
    let idle = release-Own s.timer_id s.timers own in
    (ground (arith, idle, has, period), ground (arith, there, has, period))

-- Whatever the object was, a restart after a stop calls through the null pointer, or it posts a
-- function to the workflow that does.
pub restart_after_stop :
    (throws : Bool) (s : ServerTcp)
    → (restart throws (stop s).0 ≡ fault null_pointer)
      ⊎ ((t : ServerTcp) × (es : List Event) × (restart throws (stop s).0
            ≡ ok (t, posts_stop none ∷ es))
          × (run_posted none ≡ fault null_pointer))
unfolding stop restart stop_old run_posted
restart_after_stop throws s =
    elim (Bool-cases (str_eq s.port s.options.port && str_eq s.addr s.options.addr)) [
      | inl same ↦ inl (ground (arith, same))
      | inr moved ↦
          let (t, fs) = run throws (idle (stop s).0) in inr (t, fs, ground (arith, moved), refl)
    ]
