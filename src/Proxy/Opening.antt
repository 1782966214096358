-- ===== src/Proxy/Opening.antt =====
-- The clients of a client_tcp behind a server_tcp, and the connections that are open.
use wfc_io.Prelude.{
  ℕ, ◌≡◌, ap, sym, ◌∙◌, Bool, not, inl, inr, true, false, Option, some, List, [], ◌∷◌, arith,
  String, ◌==◌, if◌then◌else◌, Bool-cases,
}
use wfc_io.Iface.{ok}
use wfc_io.Client.Options.{Config}
use wfc_io.Client.Map.{ClientMap, Op, find, null, step}
use wfc_io.Client.Map
use wfc_io.Client.Map.Restart.{IsRequest}
use wfc_io.Client.Map.Refinement.{Serves, Forgets, view}
use wfc_io.Client.Map.Refinement.Steps.{step-Allowed}
use wfc_io.Client.System.{World, Store, Output, operate}
use wfc_io.Client.Tcp.{Statistics}
use wfc_io.Client.Tcp.Component.{Component, handle, serve, restarts}
use wfc_io.Client.Tcp.Component.Passing.{passed, reg_io-passed, unreg_io-passed, perform_io-passed}
use wfc_io.Client.Tcp.Component.Lasting.{Sound, passed-Sound}
use wfc_io.Client.Tcp.Component.Reaching.{Answers, Reaches, reaches_now, answers_then}
use wfc_io.Client.Tcp.Component.Serving.{serve-passed, operated}
use wfc_io.Client.Tcp.Component.Starting.{made}
use wfc_io.Client.Tcp.Component.Beginning.{Begun, made-Begun}
use wfc_io.Proxy.{Happening, opens, comes, ends, Front, history}
use wfc_io.Proxy.Requesting.{Fronts, AllThere, answerer, request, requests, history-requests}

-- Which connections are open, by their identifiers.
abbrev pub after : (ℕ → Bool) → Happening → ℕ → Bool
after is_open (opens conn id) j = if id == j then true else is_open j
after is_open (comes id d h) j = is_open j
after is_open (ends conn id) j = if id == j then false else is_open j

abbrev pub open_after : (ℕ → Bool) → List (World × Happening) → ℕ → Bool
open_after is_open [] = is_open
open_after is_open ((w, h) ∷ hs) = open_after (after is_open h) hs

-- Data comes in over connections that are open.
abbrev IsOrderly : (ℕ → Bool) → Happening → Type 0
IsOrderly is_open (comes id d h) = is_open id ≡ true
IsOrderly is_open _ = Unit

abbrev pub AllOrderly : (ℕ → Bool) → List (World × Happening) → Type 0
AllOrderly is_open [] = Unit
AllOrderly is_open ((w, h) ∷ hs) = IsOrderly is_open h × AllOrderly (after is_open h) hs

-- A running component whose sources with clients are the connections that are open.
pub record Matches (is_open : ℕ → Bool) (c : Component) : Type 0 where
  pub map_now : ClientMap
  pub sound : Sound c.tcp map_now
  pub started : c.tcp.client_started ≡ true
  pub active : c.tcp.suspended ≡ false
  pub same : (id : ℕ) → (find id map_now == null) ≡ not (is_open id)

-- The operation of the map that a happening comes to.
abbrev pub op_of : Front → Happening → Op
op_of f (opens conn id) = Map.regs id (some conn)
op_of f (comes id d h) = Map.sends d id (answerer f h)
op_of f (ends conn id) = Map.unregs id

op_of-IsRequest : (f : Front) (h : Happening) → IsRequest (op_of f h)
op_of-IsRequest f (opens conn id) = tt
op_of-IsRequest f (comes id d h) = tt
op_of-IsRequest f (ends conn id) = tt

pub handle-passed :
    (f : Front) (h : Happening) (is_open : ℕ → Bool) (c : Component) (s : Matches is_open c)
    → handle (request f h) c.tcp ≡ ok (passed (op_of f h) c.tcp s.map_now)
unfolding handle
handle-passed f (opens conn id) is_open c s =
    ap ok (reg_io-passed id c.tcp s.map_now s.sound.has_map (some conn) s.active s.started)
handle-passed f (comes id d h) is_open c s =
    ap ok (perform_io-passed id c.tcp s.map_now s.sound.has_map d (answerer f h) s.active)
handle-passed f (ends conn id) is_open c s =
    ap ok (unreg_io-passed id c.tcp s.map_now s.sound.has_map s.started)

pub Serves-same :
    (id j : ℕ) (m n : ClientMap)
    → Serves id (view m) (view n)
    → (find j n == null) ≡ (if id == j then false else find j m == null)
Serves-same id j m n s = elim (Bool-cases (id == j)) [
  | inl own ↦ let e : id ≡ j = ground arith in ground (arith, e, s.there)
  | inr other ↦ ground (arith, s.others j (ground arith))
]

Forgets-same :
    (id j : ℕ) (m n : ClientMap)
    → Forgets id (view m) (view n)
    → (find j n == null) ≡ (if id == j then true else find j m == null)
Forgets-same id j m n s = elim (Bool-cases (id == j)) [
  | inl own ↦ let e : id ≡ j = ground arith in ground (arith, e, s.gone)
  | inr other ↦ ground (arith, s.others j (ground arith))
]

step-same :
    (f : Front) (h : Happening) (is_open : ℕ → Bool) (c : Component) (s : Matches is_open c)
    → IsOrderly is_open h
    → (j : ℕ) → (find j (step (op_of f h) s.map_now).0 == null) ≡ not (after is_open h j)
step-same f (opens conn id) is_open c s k j =
    elim (step-Allowed (Map.regs id (some conn)) s.map_now tt s.sound.inv) [
      | inl (halted, _) ↦ absurd (ground (arith, halted, s.sound.open_map s.started))
      | inr (_, serves) ↦ ground (arith, Serves-same id j s.map_now _ serves, s.same j)
    ]
step-same f (comes id d h) is_open c s k j =
    elim (step-Allowed (Map.sends d id (answerer f h)) s.map_now tt s.sound.inv) [
      | inl (halted, _) ↦ absurd (ground (arith, halted, s.sound.open_map s.started))
      | inr (_, serves) ↦ elim (Bool-cases (id == j)) [
        | inl own ↦
            let e : id ≡ j = ground arith in
            let is_there : is_open j ≡ true = ap is_open (sym e) ∙ k in
            ground (arith, Serves-same id j s.map_now _ serves, is_there)
        | inr other ↦ ground (arith, Serves-same id j s.map_now _ serves, s.same j)
      ]
    ]
step-same f (ends conn id) is_open c s k j =
    elim (step-Allowed (Map.unregs id) s.map_now tt s.sound.inv) [
      | inl (halted, _) ↦ absurd (ground (arith, halted, s.sound.open_map s.started))
      | inr (_, forgets) ↦ ground (arith, Forgets-same id j s.map_now _ forgets, s.same j)
    ]

serve-Matches :
    (w : World) (f : Front) (h : Happening) (is_open : ℕ → Bool) (c : Component)
    → Matches is_open c
    → IsOrderly is_open h
    → Answers w (request f h) c (Matches (after is_open h))
serve-Matches w f h is_open c s k =
    let op = op_of f h in
    let (d, os) = operated w op c s.map_now in
    (
      d,
      os,
      serve-passed w (request f h) op c s.map_now (handle-passed f h is_open c s),
      record {
        map_now = (step op s.map_now).0;
        sound = unfold operate in passed-Sound op c.tcp s.map_now (op_of-IsRequest f h) s.sound;
        started = s.started;
        active = s.active;
        same = step-same f h is_open c s k;
      },
    )

requests-Matches :
    (f : Front) (hs : List (World × Happening)) (is_open : ℕ → Bool) (c : Component)
    → Matches is_open c
    → AllOrderly is_open hs
    → Reaches (requests f hs) c (Matches (open_after is_open hs))
requests-Matches f [] is_open c s k = reaches_now c (Matches is_open) s
requests-Matches f ((w, h) ∷ hs) is_open c s k =
    answers_then w (request f h) (requests f hs) c (Matches (after is_open h))
      (Matches (open_after is_open ((w, h) ∷ hs))) (serve-Matches w f h is_open c s k.0)
      (λ (d : Component) (t : Matches (after is_open h) d).
        requests-Matches f hs (after is_open h) d t k.1)

pub Begun-Matches : (c : Component) → Begun c → Matches (λ _. false) c
Begun-Matches c s = record {
  map_now = s.map_now;
  sound = s.sound;
  started = s.started;
  active = s.active;
  same = λ id. ground (arith, s.nobody id);
}

-- A new component that is not suspended and is started, and that a server alone uses which is not
-- suspended, whose `winterface` then passes on what it gets, and whose connections register, has a
-- client for each connection that is open, and for no other source: whatever connections begin, get
-- data while they are open, and end, in whatever order, while the target of the connections is
-- there and nothing else changes the component, the start and all that follows return, and a source
-- has a client in the end exactly if a connection of that identifier has begun and not ended since.
pub clients_are_open :
    (t : ℕ) (f : Front) (w : World) (name : String) (options : Config)
    (statistics : Option Statistics) (default : Config) (st : Store) (hs : List (World × Happening))
    → Fronts t f
    → AllThere t hs
    → AllOrderly (λ _. false) hs
    → (c : Component) × (os : Output) × (serve w restarts
          (made name false options statistics default st)
        ≡ ok (c, os))
      × (d : Component) × (m : ClientMap) × (history t f hs c ≡ ok d)
      × (d.tcp.client_map ≡ some m)
      × ((id : ℕ) → (find id m == null) ≡ not (open_after (λ _. false) hs id))
clients_are_open t f w name options statistics default st hs front there k =
    let (c, os, e, begun) = made-Begun w name options statistics default st in
    let (d, g, s) = requests-Matches f hs (λ _. false) c (Begun-Matches c begun) k in
    (c, os, e, d, s.map_now, history-requests t f hs c front there ∙ g, s.sound.has_map, s.same)
