-- ===== src/Server/Udp/Running.antt =====
-- The servers of a server_udp object, and what they pass on.
use text.Mathlib.Text.{◌==◌ as str_eq}
use wfc_io.Prelude.{
  ℕ, ◌≡◌, refl, Bool, true, ◌&&◌, Option, none, some, List, [], ◌∷◌, ◌++◌, arith, is, if◌then◌else◌,
  total,
}
use wfc_io.Iface.{DataPtr, Handler, performs, ok}
use wfc_io.Server.Udp.{
  ServerUdp, UdpConfig, Event, calls, starts, stops, posts_stop, run, stop_old, restart, start,
  run_options, stat_init, set_separators, receive, initialize,
}

-- How often a list of events starts a server, and stops it at once or in a posted function.
abbrev pub is_start : ℕ → Event → ℕ
is_start n (starts m opt) = is n m
is_start n _ = 0

abbrev pub is_stop : ℕ → Event → ℕ
is_stop n (stops m) = is n m
is_stop n (posts_stop (some m)) = is n m
is_stop n _ = 0

abbrev pub started : ℕ → List Event → ℕ
started n = total (is_start n)

abbrev pub stopped : ℕ → List Event → ℕ
stopped n = total (is_stop n)

-- A restart of an object with a server returns, and the server is stopped, at once or in a posted
-- function, and no other. With a global object, one new server is started and is the object's;
-- without one, the object is left with no server.
pub udp_restart_one :
    (throws : Bool) (n old : ℕ) (s : ServerUdp)
    → s.impl ≡ some old
    → (t : ServerUdp) × (es : List Event) × (restart throws s ≡ ok (t, es))
      × (stopped n es ≡ is n old)
      × (started n es ≡ (if s.has_global then is n s.next else 0))
      × (t.impl ≡ (if s.has_global then some s.next else none))
unfolding restart stop_old run stat_init
udp_restart_one throws n old s has =
    let r = run throws (record s { impl = none }) in
    let ended : List Event =
      if str_eq s.port s.options.port && str_eq s.addr s.options.addr
      then stops old ∷ []
      else posts_stop (some old) ∷ [] in
    (r.0, ended ++ r.1, ground (arith, has), ground arith, ground arith, ground arith)

-- The options with which a list of events starts its first server.
abbrev pub started_with : List Event → Option UdpConfig
started_with [] = none
started_with (starts n opt ∷ es) = some opt
started_with (e ∷ es) = started_with es

-- An object with a global object that is initialized and then started has a server whose input goes
-- to the interface that the initialization made: every datagram is passed on, once, under its
-- identifier and with the sender's handler.
pub datagram_passes :
    (throws : Bool) (object : ℕ) (d : DataPtr) (id : ℕ) (cb : Handler) (s : ServerUdp)
    → s.has_global ≡ true
    → let (t, es) = start throws (initialize object s).0 in
      (opt : UdpConfig) × (target : Option ℕ) × (started_with es ≡ some opt)
      × (t.impl ≡ some s.next)
      × (opt.input_handler ≡ some target)
      × (receive target d id cb ≡ ok (calls (performs object d id cb) ∷ []))
unfolding initialize start run run_options stat_init set_separators receive
datagram_passes throws object d id cb s has = (
  run_options (initialize object s).0,
  some object,
  ground (arith, has),
  ground (arith, has),
  ground (arith, has),
  refl,
)
