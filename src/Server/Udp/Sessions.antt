-- ===== src/Server/Udp/Sessions.antt =====
-- The servers of a server_udp object over its whole life, and where their datagrams go.
use text.Mathlib.Text.{◌==◌ as str_eq}
use wfc_io.Prelude.{
  ℕ, ◌≤◌, ◌≡◌, refl, Bool, true, ◌&&◌, Option, none, some, List, [], ◌∷◌, ◌++◌, arith,
  if◌then◌else◌,
}
use wfc_io.Iface.{DataPtr, Handler, performs, ok}
use wfc_io.Server.Lives.{
  Runner, Session, View, Grows, Grows-trans, Laws, All, run_sessions, sessions-Grows,
}
use wfc_io.Server.Udp.{
  ServerUdp, UdpConfig, Event, calls, starts, stops, posts_stop, initialize, start, restart, stop,
  stop_old, run, stat_init, run_options, set_separators, receive,
}
use wfc_io.Server.Udp.Running.{started, stopped, is_start, is_stop}

abbrev pub udp_runner : Runner ServerUdp UdpConfig Event
udp_runner = record {
  configure = λ opt s. record s { options = opt };
  start = λ throws s. start throws s;
  restart = restart;
  stop = stop;
}

-- A server that is started passes every datagram on to this interface, once, under its identifier
-- and with the sender's handler.
abbrev pub Passes : ℕ → Event → Type 0
Passes object (starts n opt) =
    (input : Option ℕ) × (opt.input_handler ≡ some input)
    × ((d : DataPtr) (id : ℕ) (cb : Handler)
        → receive input d id cb ≡ ok (calls (performs object d id cb) ∷ []))
Passes object _ = Unit

abbrev udp_view : ℕ → View ServerUdp Event
udp_view object = record {
  impl = λ s. s.impl;
  next = λ s. s.next;
  is_start = is_start;
  is_stop = is_stop;
  IsReady = λ s. (s.has_global ≡ true) × (s.target ≡ some object);
  Fits = Passes object;
}

run_options-Passes :
    (object n : ℕ) (s : ServerUdp)
    → s.target ≡ some object
    → Passes object (starts n (run_options s))
unfolding run_options set_separators receive
run_options-Passes object n s has = (some object, ground (arith, has), λ d id cb. refl)

run-Grows :
    (object : ℕ) (throws : Bool) (s : ServerUdp)
    → (s.has_global ≡ true) × (s.target ≡ some object)
    → s.impl ≡ none
    → Grows (udp_view object) s (run throws s).1 (run throws s).0
      × ((run throws s).0.impl ≡ some s.next)
unfolding run stat_init
run-Grows object throws s (on, has) off =
    let served = run_options-Passes object s.next s has in
    (
      record {
        balance = λ n. ground (arith, on, off);
        once = λ n. ground (arith, on);
        above = λ n h. ground (arith, on);
        below = λ n h. ground (arith, on);
        grows = ground (arith, on);
        ready = ground (arith, on, has);
        fits = ground (arith, on, served);
      },
      ground (arith, on),
    )

abbrev idle : ServerUdp → ServerUdp
idle s = record s { impl = none }

abbrev ended : ℕ → ServerUdp → List Event
ended old s =
    if str_eq s.port s.options.port && str_eq s.addr s.options.addr
    then stops old ∷ []
    else posts_stop (some old) ∷ []

restart_eq :
    (throws : Bool) (old : ℕ) (s : ServerUdp)
    → s.impl ≡ some old
    → restart throws s ≡ ok ((run throws (idle s)).0, ended old s ++ (run throws (idle s)).1)
unfolding restart stop_old
restart_eq throws old s has = ground (arith, has)

ended-Grows :
    (object old : ℕ) (s : ServerUdp)
    → (s.has_global ≡ true) × (s.target ≡ some object)
    → s.impl ≡ some old
    → Grows (udp_view object) s (ended old s) (idle s)
ended-Grows object old s ready has = record {
  balance = λ n. ground (arith, has);
  once = λ n. ground arith;
  above = λ n h. ground arith;
  below = λ n h. ground arith;
  grows = omega arith;
  ready = ready;
  fits = ground arith;
}

stop-Grows :
    (object : ℕ) (s : ServerUdp)
    → (s.has_global ≡ true) × (s.target ≡ some object)
    → Grows (udp_view object) s (stop s).1 (stop s).0 × ((stop s).0.impl ≡ none)
unfolding stop
stop-Grows object s (on, has) = (
  record {
    balance = λ n. ground arith;
    once = λ n. ground arith;
    above = λ n h. ground arith;
    below = λ n h. ground arith;
    grows = ground arith;
    ready = ground (arith, on, has);
    fits = ground arith;
  },
  ground arith,
)

udp-Laws : (object : ℕ) → Laws udp_runner (udp_view object)
unfolding start
udp-Laws object = record {
  configures_ready = λ opt s ready. ready;
  configures_impl = λ opt s. refl;
  configures_next = λ opt s. refl;
  starts =
      λ throws s ready off. let (g, now) = run-Grows object throws s ready off in (g, s.next, now);
  restarts = λ throws old s ready has.
      let (g, now) = run-Grows object throws (idle s) ready refl in
      (
        (run throws (idle s)).0,
        ended old s ++ (run throws (idle s)).1,
        restart_eq throws old s has,
        Grows-trans (udp_view object) {t = idle s} (ended old s) (run throws (idle s)).1
            (ended-Grows object old s ready has) g,
        s.next,
        now,
      );
  stops = λ s ready. stop-Grows object s ready;
}

-- Every datagram is passed on, whatever the life of the server: an object with a global object and
-- without a server that is initialized, and then as often as one likes started, any number of times
-- restarted, with new options each time, and stopped, does not fail. At the end it has no server,
-- each server was started at most once, and every one that was started was stopped once, at once or
-- in a function that is posted, whether or not starts threw; and each was started to pass every
-- datagram on to the interface that the initialization made, once, under its identifier and with
-- the sender's handler.
pub datagrams_pass :
    (object : ℕ) (xs : List (Session UdpConfig)) (s : ServerUdp)
    → s.has_global ≡ true
    → s.impl ≡ none
    → (t : ServerUdp) × (es : List Event) × (run_sessions udp_runner xs (initialize object s).0
        ≡ ok (t, es))
      × (t.impl ≡ none)
      × ((n : ℕ) → (started n es ≤ 1) × (stopped n es ≡ started n es))
      × All (Passes object) es
unfolding initialize
datagrams_pass object xs s on off =
    let ready : ((initialize object s).0.has_global ≡ true)
        × ((initialize object s).0.target ≡ some object) =
      ground (arith, on) in
    let off0 : (initialize object s).0.impl ≡ none = ground (arith, off) in
    let (t, es, e, off', g) =
      sessions-Grows (udp-Laws object) xs (initialize object s).0 ready off0 in
    (t, es, e, off', λ n. (g.once n, ground (arith, g.balance n, off0)), g.fits)
