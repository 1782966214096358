-- ===== src/Proxy/Directly.antt =====
-- A server_tcp whose connections are in direct mode, in front of a client_tcp.
use wfc_io.Prelude.{
  ℕ, ◌≡◌, refl, ap, ◌∙◌, Bool, not, inl, inr, true, false, Option, none, some, List, [], ◌∷◌, arith,
  String, ◌==◌, if◌then◌else◌,
}
use wfc_io.Iface.{DataPtr, ok, ◌>>=◌}
use wfc_io.Client.Options.{Config}
use wfc_io.Client.Map.{ClientMap, find, null, step}
use wfc_io.Client.Map.Refinement.Steps.{step-Allowed}
use wfc_io.Client.System.{World, Store, Output, operate}
use wfc_io.Client.Tcp.{Statistics}
use wfc_io.Client.Tcp.Component.{Component, serve, restarts}
use wfc_io.Client.Tcp.Component
use wfc_io.Client.Tcp.Component.Lasting.{passed-Sound}
use wfc_io.Client.Tcp.Component.Reaching.{Answers, reaches_now, answers_then}
use wfc_io.Client.Tcp.Component.Serving.{serve-passed, operated}
use wfc_io.Client.Tcp.Component.Starting.{made}
use wfc_io.Client.Tcp.Component.Beginning.{made-Begun}
use wfc_io.Server.Connection.{Lifecycle, wrap, on_startup, on_shutdown}
use wfc_io.Server.Connection
use wfc_io.Proxy.{
  Happening, opens, comes, ends, Front, options_of, calls_of, passed_on, happen, history,
}
use wfc_io.Proxy.Requesting.{PassesOn, request, comes_through}
use wfc_io.Proxy.Opening.{Matches, Begun-Matches, Serves-same, handle-passed, op_of}

-- A function from outside, if there is one.
abbrev from_outside : Option ℕ → Option Lifecycle
from_outside none = none
from_outside (some h) = some (Connection.external h)

-- A server that is not suspended, whose `winterface` passes on what it gets, and whose connections
-- are in direct mode, so that they have the functions of their options alone.
pub record FrontsDirectly (t : ℕ) (f : Front) : Type 0 where
  pub passing : PassesOn t f
  pub direct : f.connection.direct_mode ≡ true
  pub at_begin : f.connection.startup_handler ≡ from_outside f.startup
  pub at_end : f.connection.shutdown_handler ≡ from_outside f.shutdown

-- Over which connections data has come.
abbrev pub heard : (ℕ → Bool) → Happening → ℕ → Bool
heard is_heard (comes id d h) j = if id == j then true else is_heard j
heard is_heard _ j = is_heard j

abbrev pub heard_after : (ℕ → Bool) → List (World × Happening) → ℕ → Bool
heard_after is_heard [] = is_heard
heard_after is_heard ((w, h) ∷ hs) = heard_after (heard is_heard h) hs

module _ (t : ℕ) (f : Front) (front : FrontsDirectly t f) where
  opens_quietly : (w : World) (conn id : ℕ) (c : Component) → happen t f w (opens conn id) c ≡ ok c
  unfolding happen calls_of options_of wrap on_startup passed_on Component.run
  opens_quietly w conn id c = ground (arith, front.direct, front.at_begin)

  ends_quietly : (w : World) (conn id : ℕ) (c : Component) → happen t f w (ends conn id) c ≡ ok c
  unfolding happen calls_of options_of wrap on_shutdown passed_on Component.run
  ends_quietly w conn id c = ground (arith, front.direct, front.at_end)

  -- Data that comes in gives its connection a client, if it has none.
  comes-Matches :
      (w : World) (id h : ℕ) (d : DataPtr) (is_heard : ℕ → Bool) (c : Component)
      → Matches is_heard c
      → Answers w (request f (comes id d h)) c (Matches (heard is_heard (comes id d h)))
  comes-Matches w id h d is_heard c s =
      let here = comes id d h in
      let op = op_of f here in
      let (x, os) = operated w op c s.map_now in
      (
        x,
        os,
        serve-passed w (request f here) op c s.map_now (handle-passed f here is_heard c s),
        record {
          map_now = (step op s.map_now).0;
          sound = unfold operate in passed-Sound op c.tcp s.map_now tt s.sound;
          started = s.started;
          active = s.active;
          same = λ j. elim (step-Allowed op s.map_now tt s.sound.inv) [
            | inl (halted, _) ↦ absurd (ground (arith, halted, s.sound.open_map s.started))
            | inr (_, serves) ↦ ground (arith, Serves-same id j s.map_now _ serves, s.same j)
          ];
        },
      )

  history-Matches :
      (hs : List (World × Happening)) (is_heard : ℕ → Bool) (c : Component)
      → Matches is_heard c
      → (d : Component) × (history t f hs c ≡ ok d) × Matches (heard_after is_heard hs) d
  unfolding history
  history-Matches [] is_heard c s = (c, refl, s)
  history-Matches ((w, opens conn id) ∷ hs) is_heard c s =
      let (d, e, k) = history-Matches hs is_heard c s in
      (d, ap (λ r. r >>= history t f hs) (opens_quietly w conn id c) ∙ e, k)
  history-Matches ((w, ends conn id) ∷ hs) is_heard c s =
      let (d, e, k) = history-Matches hs is_heard c s in
      (d, ap (λ r. r >>= history t f hs) (ends_quietly w conn id c) ∙ e, k)
  history-Matches ((w, comes id d h) ∷ hs) is_heard c s =
      let P = Matches (heard is_heard (comes id d h)) in
      let (x, one, now) =
        answers_then w (request f (comes id d h)) [] c P P (comes-Matches w id h d is_heard c s)
          (λ (x : Component) (k : P x). reaches_now x P k) in
      let (y, e, k) = history-Matches hs (heard is_heard (comes id d h)) x now in
      (y, ap (λ r. r >>= history t f hs) (comes_through t f front.passing w id h d c ∙ one) ∙ e, k)

-- In direct mode no client is given back: a new component that is not suspended and is started, and
-- that a server alone uses which is not suspended, whose `winterface` then passes on what it gets,
-- and whose connections are in direct mode, has a client for each connection over which data has
-- come, whether or not the connection has ended since, and for no other source: whatever
-- connections begin, get data and end, in whatever order, the start and all that follows return,
-- and a source has a client in the end exactly if data came under its identifier.
pub direct_keeps :
    (t : ℕ) (f : Front) (w : World) (name : String) (options : Config)
    (statistics : Option Statistics) (default : Config) (st : Store) (hs : List (World × Happening))
    → FrontsDirectly t f
    → (c : Component) × (os : Output) × (serve w restarts
          (made name false options statistics default st)
        ≡ ok (c, os))
      × (d : Component) × (m : ClientMap) × (history t f hs c ≡ ok d)
      × (d.tcp.client_map ≡ some m)
      × ((id : ℕ) → (find id m == null) ≡ not (heard_after (λ _. false) hs id))
direct_keeps t f w name options statistics default st hs front =
    let (c, os, e, begun) = made-Begun w name options statistics default st in
    let (d, g, s) = history-Matches t f front hs (λ _. false) c (Begun-Matches c begun) in
    (c, os, e, d, s.map_now, g, s.sound.has_map, s.same)
