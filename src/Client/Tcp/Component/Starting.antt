-- ===== src/Client/Tcp/Component/Starting.antt =====
-- The sources of the component `client-tcp` from their registration on, whether the component runs
-- then or starts later.
use wfc_io.Prelude.{
  ℕ, ◌≡◌, refl, ◌≢◌, true, false, some, List, [], ◌∷◌, arith, Option, Bool, String,
}
use wfc_io.Iface.{Alive, ok}
use wfc_io.Client.Options.{Config}
use wfc_io.Client.Map.{ClientMap, Op, step, find, null}
use wfc_io.Client.Map
use wfc_io.Client.Map.History.{init-Inv}
use wfc_io.Client.System.{World, Store, drive}
use wfc_io.Client.System.Binding.{Bound-Delivers}
use wfc_io.Client.System.Binding.{Delivers, adapter_of}
use wfc_io.Client.Tcp.{Statistics, init, initialize}
use wfc_io.Client.Tcp.Driving.{map_events, system}
use wfc_io.Client.Tcp.Component.{Component, Request, restarts, regs, serve, run}
use wfc_io.Client.Tcp.Component.Reaching.{Reaches, answers_then, reaches-map, reached}
use wfc_io.Client.Tcp.Component.Lasting.{IsSound}
use wfc_io.Client.Tcp.Component.Renewing.{handle-IsSound}
use wfc_io.Client.Tcp.Component.Waiting.{Waits, run-Waits, regs-Waiting, restarts-Serves}
use wfc_io.Client.Tcp.Component.Serving.{Serves, AllSpare, run-Serves, regs-Serves}

-- A component that is new and has been initialized.
unfoldable pub made : String → Bool → Config → Option Statistics → Config → Store → Component
unfolding init initialize
made name suspended options statistics default st = record {
  tcp = initialize default (init name suspended options statistics);
  adapters = st;
}

made-IsSound :
    (name : String) (suspended : Bool) (options : Config) (statistics : Option Statistics)
    (default : Config) (st : Store)
    → IsSound (made name suspended options statistics default st).tcp
unfolding made
made-IsSound name suspended options statistics default st = (
  Map.init default,
  record {
    has_map = refl;
    inv = init-Inv default;
    open_map = λ e. absurd (ground arith);
    ordered = tt;
  },
)

-- Any history returns.
pub run-IsSound :
    (rs : List (World × Request)) (c : Component)
    → IsSound c.tcp
    → (d : Component) × (run rs c ≡ ok d) × IsSound d.tcp
unfolding run serve
run-IsSound [] c s = (c, refl, s)
run-IsSound ((w, r) ∷ rs) c s =
    let (tcp, es, e, t) = handle-IsSound r c.tcp s in
    let next : Component = record {
      tcp = tcp;
      adapters = (drive w (map_events es) c.adapters).0;
    } in
    let (d, f, u) = run-IsSound rs next t in (d, rw e f, u)

-- To what comes in over the client of the source, the component answers with the message to the
-- object and no other.
abbrev pub Receives : Alive → ℕ → ℕ → Component → Type 0
Receives later id n c =
    (m : ClientMap) × (c.tcp.client_map ≡ some m)
    × (find id m ≢ null)
    × Delivers later n (adapter_of id (system m c.adapters))

Serves-Receives :
    (later : Alive) (id n : ℕ) (c : Component)
    → Serves id n c
    → later n ≡ true
    → Receives later id n c
Serves-Receives later id n c s there = (
  s.map_now,
  s.sound.has_map,
  s.bound.0,
  Bound-Delivers later id n (system s.map_now c.adapters) s.bound there,
)

served_after :
    (later : Alive) (id n : ℕ) (after : List (World × Request)) (c : Component)
    → Serves id n c
    → later n ≡ true
    → id ≢ 0
    → AllSpare id n after
    → Reaches after c (Receives later id n)
served_after later id n after c s there real k =
    reaches-map after c (Serves id n) (Receives later id n) (run-Serves after id n c s real k)
      (λ (d : Component) (t : Serves id n d). Serves-Receives later id n d t there)

module _ (name : String) (suspended : Bool) (options : Config) (statistics : Option Statistics)
    (default : Config) (st : Store) (before : List (World × Request)) (c : Component)
    (history : run before (made name suspended options statistics default st) ≡ ok c) where
  pub IsSound-now : IsSound c.tcp
  IsSound-now =
      let start = made name suspended options statistics default st in
      reached before start c (λ x. IsSound x.tcp)
        (run-IsSound before start (made-IsSound name suspended options statistics default st))
        history

  module _ (w : World) (later : Alive) (id n : ℕ) (there : later n ≡ true) (real : id ≢ 0) where
    -- A source that registers with a component that runs is served from then on: after any history
    -- of the component that it returns from, new and initialized, if it is started and not
    -- suspended when a source other than 0 registers an object, then whatever requests other
    -- sources make, whatever messages the source sends while its object is there, and whatever
    -- options and suspensions are set meanwhile, all of it returns, and the source has a client.
    -- What comes in over that client goes to the object alone while it is there, under the number
    -- of the adapter; without keep-alive the handler of the connection, if there is one, is first
    -- called with no data, and the object answers through the adapter.
    pub running_source_served :
        (after : List (World × Request))
        → c.tcp.suspended ≡ false
        → c.tcp.client_started ≡ true
        → AllSpare id n after
        → Reaches ((w, regs id (some n)) ∷ after) c (Receives later id n)
    running_source_served after active on k =
        let (m, s) = IsSound-now in
        answers_then w (regs id (some n)) after c (Serves id n) (Receives later id n)
          (regs-Serves w id n c m s on active)
          (λ (d : Component) (t : Serves id n d). served_after later id n after d t there real k)

    -- A source that registers before the start is served after it: after any history of the
    -- component that it returns from, new and initialized, if it has not started, or has been
    -- stopped, and is not suspended when a source other than 0 registers an object, then other
    -- sources may make requests, the source may send messages while its object is there, and
    -- options and suspension may change. If the component is not suspended when it then starts by
    -- `restart`, this and the like of that afterwards return, and the source has a client, over
    -- which what comes in goes to the object alone while it is there, as for a source that
    -- registers with a component that runs.
    pub waiting_source_served :
        (meanwhile after : List (World × Request)) (w2 : World) (d : Component)
        → c.tcp.suspended ≡ false
        → c.tcp.client_started ≡ false
        → AllSpare id n meanwhile
        → run ((w, regs id (some n)) ∷ meanwhile) c ≡ ok d
        → d.tcp.suspended ≡ false
        → AllSpare id n after
        → Reaches ((w2, restarts) ∷ after) d (Receives later id n)
    waiting_source_served meanwhile after w2 d active idle k reaches on l =
        let (m, s) = IsSound-now in
        let waits =
          answers_then w (regs id (some n)) meanwhile c (Waits id n) (Waits id n)
            (regs-Waiting w id n c m s idle active)
            (λ (x : Component) (t : Waits id n x). run-Waits meanwhile id n x t k) in
        answers_then w2 restarts after d (Serves id n) (Receives later id n)
          (restarts-Serves w2 id n d (reached _ c d (Waits id n) waits reaches) on)
          (λ (x : Component) (t : Serves id n x). served_after later id n after x t there real l)
