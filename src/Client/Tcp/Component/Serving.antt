-- ===== src/Client/Tcp/Component/Serving.antt =====
-- Who receives what comes in over the component `client-tcp`, under any history of its operations.
use wfc_io.Prelude.{
  ℕ, ◌≡◌, refl, ap, ◌≢◌, inl, inr, true, false, none, some, List, [], ◌∷◌, arith, Bool-cases,
  if◌then◌else◌,
}
use wfc_io.Iface.{DataPtr, Handler, ok, is_empty}
use wfc_io.Client.Map.{ClientMap, Op, step}
use wfc_io.Client.Map
use wfc_io.Client.Map.Restart.{IsRequest}
use wfc_io.Client.System.{World, Output, drive, operate}
use wfc_io.Client.System.Binding.{Bound, Friendly, operate-Bound, regs-Bound}
use wfc_io.Client.Tcp.{ClientTcp, Event, invokes}
use wfc_io.Client.Tcp.Driving.{map_events, map_events-client, system}
use wfc_io.Client.Tcp.Component.{Component, Request, configures, regs, unregs, sends, handle, serve}
use wfc_io.Client.Tcp.Component.Reaching.{Answers, Reaches, reaches_now, answers_then}
use wfc_io.Client.Tcp.Component.Passing.{
  passed, reg_io-passed, reg_io_ignored, unreg_io-passed, perform_io-passed, perform_io_refused,
}
use wfc_io.Client.Tcp.Component.Lasting.{Sound, passed-Sound, configured-Sound}

-- The component after an operation of its map and what that does to the adapters.
abbrev pub operated : World → Op → Component → ClientMap → Component × Output
operated w op c m =
    let (t, os) = operate w op (system m c.adapters) in
    (record { tcp = record c.tcp { client_map = some t.clients }; adapters = t.adapters }, os)

pub serve-passed :
    (w : World) (r : Request) (op : Op) (c : Component) (m : ClientMap)
    → handle r c.tcp ≡ ok (passed op c.tcp m)
    → serve w r c ≡ ok (operated w op c m)
unfolding serve operate
serve-passed w r op c m e = rw e (rw (map_events-client (step op m).1))

-- A request that neither reaches the map nor an adapter.
pub serve_aside :
    (w : World) (r : Request) (c : Component) (tcp : ClientTcp) (es : List Event)
    → handle r c.tcp ≡ ok (tcp, es)
    → map_events es ≡ []
    → serve w r c ≡ ok (record c { tcp = tcp }, [])
unfolding serve drive
serve_aside w r c tcp es e q = rw e (rw q)

-- The component runs, and the client of the source points to the object.
pub record Serves (id n : ℕ) (c : Component) : Type 0 where
  pub map_now : ClientMap
  pub sound : Sound c.tcp map_now
  pub started : c.tcp.client_started ≡ true
  pub bound : Bound id n (system map_now c.adapters)

-- What leaves the object of a source in place: what other sources ask for, messages of the source
-- itself while the object is there, other options and suspension.
abbrev pub Spares : ℕ → ℕ → World → Request → Type 0
Spares id n w (configures opt suspended) = Unit
Spares id n w (regs j itf) = id ≢ j
Spares id n w (unregs j) = id ≢ j
Spares id n w (sends d j handler) = id ≡ j → w.alive n ≡ true
Spares id n w _ = ⊥

abbrev pub AllSpare : ℕ → ℕ → List (World × Request) → Type 0
AllSpare id n [] = Unit
AllSpare id n ((w, r) ∷ rs) = Spares id n w r × AllSpare id n rs

passed-Served :
    (w : World) (r : Request) (op : Op) (id n : ℕ) (c : Component) (s : Serves id n c)
    → IsRequest op
    → id ≢ 0
    → Friendly id n w op
    → handle r c.tcp ≡ ok (passed op c.tcp s.map_now)
    → Answers w r c (Serves id n)
passed-Served w r op id n c s q real k e =
    let t = (operate w op (system s.map_now c.adapters)).0 in
    (
      _,
      _,
      serve-passed w r op c s.map_now e,
      record {
        map_now = t.clients;
        sound = unfold operate in passed-Sound op c.tcp s.map_now q s.sound;
        started = s.started;
        bound =
            operate-Bound w op id n (system s.map_now c.adapters) s.sound.inv
              (s.sound.open_map s.started) real s.bound k;
      },
    )

aside-Served :
    (w : World) (r : Request) (id n : ℕ) (c : Component) (es : List Event)
    → Serves id n c
    → handle r c.tcp ≡ ok (c.tcp, es)
    → map_events es ≡ []
    → Answers w r c (Serves id n)
aside-Served w r id n c es s e q = (c, [], serve_aside w r c c.tcp es e q, s)

pub quiet_refusal :
    (handler : Handler)
    → map_events (if is_empty handler then [] else invokes handler none ∷ []) ≡ []
quiet_refusal handler = ground arith

sends-Served :
    (w : World) (d : DataPtr) (j id n : ℕ) (handler : Handler) (c : Component)
    → Serves id n c
    → id ≢ 0
    → (id ≡ j → w.alive n ≡ true)
    → Answers w (sends d j handler) c (Serves id n)
unfolding handle
sends-Served w d j id n handler c s real k = elim (Bool-cases c.tcp.suspended) [
  | inl off ↦
      aside-Served w (sends d j handler) id n c _ s
        (ap ok (perform_io_refused j c.tcp s.map_now s.sound.has_map d handler off))
        (quiet_refusal handler)
  | inr active ↦
      passed-Served w (sends d j handler) (Map.sends d j handler) id n c s tt real k
        (ap ok (perform_io-passed j c.tcp s.map_now s.sound.has_map d handler active))
]

serve-Served :
    (w : World) (r : Request) (id n : ℕ) (c : Component)
    → Serves id n c
    → id ≢ 0
    → Spares id n w r
    → Answers w r c (Serves id n)
unfolding handle
serve-Served w (configures opt suspended) id n c s real k = (
  _,
  [],
  serve_aside w (configures opt suspended) c _ [] refl refl,
  record {
    map_now = s.map_now;
    sound = configured-Sound opt suspended c.tcp s.map_now s.sound;
    started = s.started;
    bound = s.bound;
  },
)
serve-Served w (regs j itf) id n c s real k = elim (Bool-cases c.tcp.suspended) [
  | inl off ↦
      aside-Served w (regs j itf) id n c [] s
        (ap ok (reg_io_ignored j c.tcp s.map_now s.sound.has_map itf off)) refl
  | inr active ↦
      passed-Served w (regs j itf) (Map.regs j itf) id n c s tt real k
        (ap ok (reg_io-passed j c.tcp s.map_now s.sound.has_map itf active s.started))
]
serve-Served w (unregs j) id n c s real k =
    passed-Served w (unregs j) (Map.unregs j) id n c s tt real k
      (ap ok (unreg_io-passed j c.tcp s.map_now s.sound.has_map s.started))
serve-Served w (sends d j handler) id n c s real k = sends-Served w d j id n handler c s real k
serve-Served w _ id n c s real k = absurd k

-- Such requests return, and the object stays in place.
pub run-Serves :
    (rs : List (World × Request)) (id n : ℕ) (c : Component)
    → Serves id n c
    → id ≢ 0
    → AllSpare id n rs
    → Reaches rs c (Serves id n)
run-Serves [] id n c s real k = reaches_now c (Serves id n) s
run-Serves ((w, r) ∷ rs) id n c s real k =
    answers_then w r rs c (Serves id n) (Serves id n) (serve-Served w r id n c s real k.0)
      (λ (d : Component) (t : Serves id n d). run-Serves rs id n d t real k.1)

-- A source that registers an object with a component that runs.
pub regs-Serves :
    (w : World) (id n : ℕ) (c : Component) (m : ClientMap)
    → Sound c.tcp m
    → c.tcp.client_started ≡ true
    → c.tcp.suspended ≡ false
    → Answers w (regs id (some n)) c (Serves id n)
unfolding handle
regs-Serves w id n c m s on active =
    let op = Map.regs id (some n) in
    (
      _,
      _,
      serve-passed w (regs id (some n)) op c m
          (ap ok (reg_io-passed id c.tcp m s.has_map (some n) active on)),
      record {
        map_now = (operate w op (system m c.adapters)).0.clients;
        sound = unfold operate in passed-Sound op c.tcp m tt s;
        started = on;
        bound = regs-Bound w id n (system m c.adapters) s.inv (s.open_map on);
      },
    )
