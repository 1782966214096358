-- ===== src/Proxy/Requesting.antt =====
-- What the connections of server_tcp.cpp ask of a target that is a `client-tcp`.
use mathlib.Core.Path.{fun_ext}
use wfc_io.Prelude.{ℕ, ◌≡◌, refl, ap, ◌∙◌, true, false, some, List, [], ◌∷◌, arith, if◌then◌else◌}
use wfc_io.Iface.{DataPtr, Call, performs, Handler, external, closing, Result, ok, fault, ◌>>=◌}
use wfc_io.Client.System.{World}
use wfc_io.Client.Tcp.Component.{Component, Request, regs, unregs, sends}
use wfc_io.Client.Tcp.Component
use wfc_io.Server.Connection.{wrap, on_startup, on_shutdown}
use wfc_io.Server.Tcp.{run_options, receive}
use wfc_io.Proxy.{
  Happening, opens, comes, ends, Front, options_of, calls_of, requests_to, passed_on, happen,
  history,
}

-- A server that is not suspended, whose `winterface` passes on what it gets, as it is.
pub record PassesOn (t : ℕ) (f : Front) : Type 0 where
  pub target : f.server.target ≡ some t
  pub active : f.server.suspended ≡ false
  pub all : (r : Request) → f.passes_on false r ≡ r ∷ []

pub passes_one :
    (t : ℕ) (f : Front)
    → PassesOn t f
    → (r : Request) → passed_on (f.passes_on f.server.suspended) (r ∷ []) ≡ r ∷ []
unfolding passed_on
passes_one t f p r = rw (p.active, p.all r) refl

-- Such a server, whose connections register.
pub record Fronts (t : ℕ) (f : Front) : Type 0 where
  pub passing : PassesOn t f
  pub registers_connections : f.connection.direct_mode ≡ false

-- The handler that answers what comes in.
abbrev pub answerer : Front → ℕ → Handler
answerer f h = if f.server.options.keep_alive then external h else closing (external h)

-- The request that a happening makes.
abbrev pub request : Front → Happening → Request
request f (opens conn id) = regs id (some conn)
request f (comes id d h) = sends d id (answerer f h)
request f (ends conn id) = unregs id

-- A happening that is one call of the `winterface` is one request to the component.
pub happen_one :
    (t : ℕ) (f : Front) (w : World) (h : Happening) (c : Component) (cs : List Call) (r : Request)
    → PassesOn t f
    → calls_of w.alive f h ≡ ok cs
    → requests_to t cs ≡ r ∷ []
    → happen t f w h c ≡ Component.run ((w, r) ∷ []) c
unfolding happen
happen_one t f w h c cs r p called one = rw called (rw one (rw (passes_one t f p r) refl))

comes-calls :
    (t : ℕ) (f : Front) (w : World) (id h : ℕ) (d : DataPtr)
    → PassesOn t f
    → calls_of w.alive f (comes id d h) ≡ ok (performs t d id (answerer f h) ∷ [])
unfolding calls_of run_options receive
comes-calls t f w id h d p = ground (arith, p)

-- What comes in over a connection, of whatever kind, goes through.
pub comes_through :
    (t : ℕ) (f : Front)
    → PassesOn t f
    → (w : World) (id h : ℕ) (d : DataPtr) (c : Component)
    → happen t f w (comes id d h) c ≡ Component.run ((w, request f (comes id d h)) ∷ []) c
comes_through t f p w id h d c =
    happen_one t f w (comes id d h) c (performs t d id (answerer f h) ∷ [])
      (request f (comes id d h)) p (comes-calls t f w id h d p) (ground arith)

module _ (t : ℕ) (f : Front) (front : Fronts t f) (w : World) (there : w.alive t ≡ true) where
  calls-request :
      (h : Happening)
      → (cs : List Call) × (calls_of w.alive f h ≡ ok cs) × (requests_to t cs ≡ request f h ∷ [])
  unfolding calls_of options_of wrap on_startup on_shutdown run_options
  calls-request (opens conn id) = (_, refl, ground (arith, front.passing, front, there))
  calls-request (comes id d h) = (_, comes-calls t f w id h d front.passing, ground arith)
  calls-request (ends conn id) = (_, refl, ground (arith, front.passing, front, there))

  happen-request :
      (h : Happening) (c : Component) → happen t f w h c ≡ Component.run ((w, request f h) ∷ []) c
  happen-request h c =
      let (cs, called, one) = calls-request h in
      happen_one t f w h c cs (request f h) front.passing called one

-- The target is there all the time.
abbrev pub AllThere : ℕ → List (World × Happening) → Type 0
AllThere t [] = Unit
AllThere t ((w, h) ∷ hs) = (w.alive t ≡ true) × AllThere t hs

abbrev pub requests : Front → List (World × Happening) → List (World × Request)
requests f [] = []
requests f ((w, h) ∷ hs) = (w, request f h) ∷ requests f hs

bind-map {ℓ κ μ} :
    {A : Type ℓ} {B : Type κ} {C : Type μ} (m : Result A) (f : A → B) (k : B → Result C)
    → ((m >>= λ x. ok (f x)) >>= k) ≡ (m >>= λ x. k (f x))
bind-map (ok a) f k = refl
bind-map (fault e) f k = refl

-- One request and then others.
run_then :
    (w : World) (r : Request) (rs : List (World × Request)) (c : Component)
    → (Component.run ((w, r) ∷ []) c >>= Component.run rs) ≡ Component.run ((w, r) ∷ rs) c
unfolding Component.run
run_then w r rs c = bind-map (Component.serve w r c) (λ x. x.0) (Component.run rs)

-- Whatever the server's connections do, the component gets one request for each happening, in their
-- order, and no other.
pub history-requests :
    (t : ℕ) (f : Front) (hs : List (World × Happening)) (c : Component)
    → Fronts t f
    → AllThere t hs
    → history t f hs c ≡ Component.run (requests f hs) c
unfolding history
history-requests t f [] c front there = unfold Component.run in refl
history-requests t f ((w, h) ∷ hs) c front there =
    ap (λ r. r >>= history t f hs) (happen-request t f front w there.0 h c)
    ∙ ap (λ k. Component.run ((w, request f h) ∷ []) c >>= k)
        (fun_ext λ d. history-requests t f hs d front there.1)
    ∙ run_then w (request f h) (requests f hs) c
