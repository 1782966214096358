-- ===== src/Server/Tcp/Sessions.antt =====
-- The servers of a server_tcp object over its whole life: it is started, configured anew and
-- restarted, and stopped, and started again.
use mathlib.Core.Path.{subst}
use wfc_io.Prelude.{
  ℕ, suc, ◌≤◌, ◌≡◌, refl, ◌∙◌, Bool, Option, none, some, List, [], ◌∷◌, ◌++◌, arith, if◌then◌else◌,
}
use wfc_io.Iface.{ok}
use wfc_io.Server.Lives.{
  Runner, Session, View, Grows, Grows-trans, Laws, All, All-append, run_sessions, sessions-Grows,
}
use wfc_io.Server.Tcp.{
  ServerConfig, ServerTcp, Event, starts, start, restart, stop, run, stat_init, start_timer,
  run_options, set_separators,
}
use wfc_io.Server.Tcp.Restarting.{
  started, stopped, is_start, is_stop, run-Runs, idle, ended, restart_eq,
}

abbrev pub tcp_runner : Runner ServerTcp ServerConfig Event
tcp_runner = record {
  configure = λ opt s. record s { options = opt };
  start = start;
  restart = restart;
  stop = stop;
}

-- A server that is started passes what its connections send to this target, which its connections
-- have too, and closes them as its options say.
abbrev pub Accepts : Option ℕ → Event → Type 0
Accepts target (starts n opt) =
    (opt.input_handler ≡ some (record { target = target; keep_alive = opt.keep_alive }))
    × (opt.connection_target ≡ target)
Accepts target _ = Unit

abbrev tcp_view : Option ℕ → View ServerTcp Event
tcp_view target = record {
  impl = λ s. s.impl;
  next = λ s. s.next;
  is_start = is_start;
  is_stop = is_stop;
  IsReady = λ s. s.target ≡ target;
  Fits = Accepts target;
}

stat_init-fits :
    (target : Option ℕ) (s : ServerTcp)
    → ((stat_init s).0.target ≡ s.target) × All (Accepts target) (stat_init s).1
unfolding stat_init start_timer
stat_init-fits target s = ground arith

run_options-fits : (s : ServerTcp) (n : ℕ) → Accepts s.target (starts n (run_options s))
unfolding run_options set_separators
run_options-fits s n = ground arith

run-fits :
    (throws : Bool) (s : ServerTcp)
    → ((run throws s).0.target ≡ s.target) × All (Accepts s.target) (run throws s).1
unfolding run
run-fits throws s =
    let begun = record s {
      port = s.options.port;
      addr = s.options.addr;
      impl = some s.next;
      next = suc s.next;
    } in
    let (same, quiet) = stat_init-fits s.target begun in
    let fatal : All (Accepts s.target) (if throws then Event.fatal ∷ [] else []) = ground arith in
    let served =
      All-append (Accepts s.target) _ (starts s.next (run_options s) ∷ []) quiet
        (run_options-fits s s.next, tt) in
    (same, All-append (Accepts s.target) _ (if throws then Event.fatal ∷ [] else []) served fatal)

run-Grows :
    (target : Option ℕ) (throws : Bool) (s : ServerTcp)
    → s.target ≡ target
    → s.impl ≡ none
    → Grows (tcp_view target) s (run throws s).1 (run throws s).0
run-Grows target throws s ready off =
    let r = run-Runs throws s in
    let (same, fits) = run-fits throws s in
    record {
      balance = λ n. ground (arith, r.starts_one n, r.stops_none n, r.impl, off);
      once = λ n. ground (arith, r.starts_one n);
      above = λ n h. ground (arith, r.starts_one n);
      below = λ n h. ground (arith, r.starts_one n, r.next);
      grows = omega (arith, r.next);
      ready = same ∙ ready;
      fits = subst (λ x. All (Accepts x) (run throws s).1) ready fits;
    }

restart-Grows :
    (target : Option ℕ) (throws : Bool) (old : ℕ) (s : ServerTcp)
    → s.target ≡ target
    → s.impl ≡ some old
    → Grows (tcp_view target) s (ended old s ++ (run throws (idle s)).1) (run throws (idle s)).0
restart-Grows target throws old s ready has =
    Grows-trans (tcp_view target) {t = idle s} (ended old s) (run throws (idle s)).1
      (record {
        balance = λ n. ground (arith, has);
        once = λ n. ground arith;
        above = λ n h. ground arith;
        below = λ n h. ground arith;
        grows = omega arith;
        ready = ready;
        fits = ground arith;
      })
      (run-Grows target throws (idle s) ready refl)

stop-Grows :
    (target : Option ℕ) (s : ServerTcp)
    → s.target ≡ target
    → Grows (tcp_view target) s (stop s).1 (stop s).0 × ((stop s).0.impl ≡ none)
unfolding stop
stop-Grows target s ready = (
  record {
    balance = λ n. ground arith;
    once = λ n. ground arith;
    above = λ n h. ground arith;
    below = λ n h. ground arith;
    grows = ground arith;
    ready = ground (arith, ready);
    fits = ground arith;
  },
  ground arith,
)

tcp-Laws : (target : Option ℕ) → Laws tcp_runner (tcp_view target)
unfolding start
tcp-Laws target = record {
  configures_ready = λ opt s ready. ready;
  configures_impl = λ opt s. refl;
  configures_next = λ opt s. refl;
  starts =
      λ throws s ready off. (run-Grows target throws s ready off, s.next, (run-Runs throws s).impl);
  restarts = λ throws old s ready has. (
    _,
    _,
    restart_eq throws old s has,
    restart-Grows target throws old s ready has,
    s.next,
    (run-Runs throws (idle s)).impl,
  );
  stops = λ s ready. stop-Grows target s ready;
}

-- No server leaks, and each serves the target: an object without a server that is started, any
-- number of times restarted, with new options each time, and stopped, and all this as often as one
-- likes, does not fail. At the end it has no server, each server was started at most once, and
-- every one that was started was stopped once, at once or in a function that is posted, whether or
-- not starts threw; and each was started to pass what comes in to the target that the object had at
-- first, and to keep its connections alive as the options that it was started with say.
pub sessions_balance :
    (xs : List (Session ServerConfig)) (s : ServerTcp)
    → s.impl ≡ none
    → (t : ServerTcp) × (es : List Event) × (run_sessions tcp_runner xs s ≡ ok (t, es))
      × (t.impl ≡ none)
      × ((n : ℕ) → (started n es ≤ 1) × (stopped n es ≡ started n es))
      × All (Accepts s.target) es
sessions_balance xs s off =
    let (t, es, e, off', g) = sessions-Grows (tcp-Laws s.target) xs s refl off in
    (t, es, e, off', λ n. (g.once n, ground (arith, g.balance n)), g.fits)
