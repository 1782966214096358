-- ===== src/Client/Tcp/Component/Staying.antt =====
-- What the requests of sources leave as it is in the component `client-tcp`.
use wfc_io.Prelude.{◌≡◌, refl, ap, ◌∙◌, List, [], ◌∷◌, arith}
use wfc_io.Iface.{Result, ok, fault, ◌>>=◌}
use wfc_io.Client.System.{World, Output, drive}
use wfc_io.Client.Tcp.{ClientTcp, Event, reg_io, unreg_io, perform_io}
use wfc_io.Client.Tcp.Driving.{map_events}
use wfc_io.Client.Tcp.Component.{Component, Request, regs, unregs, sends, handle, serve, run}

-- The calls of `iinterface`.
abbrev pub Asks : Request → Type 0
Asks (regs id itf) = Unit
Asks (unregs id) = Unit
Asks (sends d id handler) = Unit
Asks _ = ⊥

abbrev pub AllAsk : List (World × Request) → Type 0
AllAsk [] = Unit
AllAsk ((w, r) ∷ rs) = Asks r × AllAsk rs

abbrev SameState : ClientTcp → ClientTcp → Type 0
SameState c d = (d.suspended ≡ c.suspended) × (d.client_started ≡ c.client_started)

handle-SameState :
    (r : Request) (c d : ClientTcp) (es : List Event)
    → Asks r
    → handle r c ≡ ok (d, es)
    → SameState c d
unfolding handle reg_io unreg_io perform_io
handle-SameState (regs id itf) c d es k e = ground arith
handle-SameState (unregs id) c d es k e = ground arith
handle-SameState (sends x id handler) c d es k e = ground arith
handle-SameState _ c d es k e = absurd k

-- What follows from each way to a result follows from the result.
by_steps {ℓ κ υ} :
    {A : Type ℓ} {B : Type κ} {C : Type υ} {b : B} (f : A → Result B) (step : Result A)
    → ((x : A) → step ≡ ok x → f x ≡ ok b → C)
    → (step >>= f) ≡ ok b
    → C
by_steps f (ok x) goal e = goal x refl e
by_steps f (fault _) goal e = cc

serve-SameState :
    (w : World) (r : Request) (c d : Component) (os : Output)
    → Asks r
    → serve w r c ≡ ok (d, os)
    → SameState c.tcp d.tcp
unfolding serve
serve-SameState w r c d os k =
    by_steps
      (λ y. ok (
        record { tcp = y.0; adapters = (drive w (map_events y.1) c.adapters).0 },
        (drive w (map_events y.1) c.adapters).1,
      ))
      (handle r c.tcp)
      (λ (tcp, es) handled done.
        let (a, b) = handle-SameState r c.tcp tcp es k handled in
        let same : d.tcp ≡ tcp = cc in
        (
          ap (λ (y : ClientTcp). y.suspended) same ∙ a,
          ap (λ (y : ClientTcp). y.client_started) same ∙ b,
        ))

-- Requests leave alone whether the component runs and whether it is suspended.
pub run-SameState :
    (rs : List (World × Request)) (c d : Component)
    → AllAsk rs
    → run rs c ≡ ok d
    → SameState c.tcp d.tcp
unfolding run
run-SameState [] c d k e = ground arith
run-SameState ((w, r) ∷ rs) c d k e =
    by_steps (λ y. run rs y.0) (serve w r c)
      (λ (x, os) answered more.
        let (a, b) = serve-SameState w r c x os k.0 answered in
        let (a', b') = run-SameState rs x d k.1 more in (a' ∙ a, b' ∙ b))
      e
