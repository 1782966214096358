-- ===== src/Client/Tcp/Component/Reaching.antt =====
-- One request after the other, of the component `client-tcp`.
use mathlib.Core.Path.{subst}
use wfc_io.Prelude.{◌≡◌, refl, ◌∙◌, List, [], ◌∷◌}
use wfc_io.Iface.{ok}
use wfc_io.Client.System.{World, Output}
use wfc_io.Client.Tcp.Component.{Component, Request, serve, run}

-- A request returns, and what it leaves has the property.
abbrev pub Answers : World → Request → Component → (Component → Type 0) → Type 0
Answers w r c P = (d : Component) × (os : Output) × (serve w r c ≡ ok (d, os)) × P d

-- So do requests one after the other.
abbrev pub Reaches : List (World × Request) → Component → (Component → Type 0) → Type 0
Reaches rs c P = (d : Component) × (run rs c ≡ ok d) × P d

pub reaches_now : (c : Component) (P : Component → Type 0) → P c → Reaches [] c P
unfolding run
reaches_now c P p = (c, refl, p)

run_first :
    (w : World) (r : Request) (rs : List (World × Request)) (c d : Component) (os : Output)
    → serve w r c ≡ ok (d, os)
    → run ((w, r) ∷ rs) c ≡ run rs d
unfolding run
run_first w r rs c d os e = rw e

pub run_one :
    (w : World) (r : Request) (c d : Component) (os : Output)
    → serve w r c ≡ ok (d, os)
    → run ((w, r) ∷ []) c ≡ ok d
unfolding run
run_one w r c d os e = rw e refl

pub answers_then :
    (w : World) (r : Request) (rs : List (World × Request)) (c : Component)
    (P Q : Component → Type 0)
    → Answers w r c P
    → ((d : Component) → P d → Reaches rs d Q)
    → Reaches ((w, r) ∷ rs) c Q
answers_then w r rs c P Q (d, os, e, p) next =
    let (f, g, q) = next d p in (f, run_first w r rs c d os e ∙ g, q)

pub reaches-map :
    (rs : List (World × Request)) (c : Component) (P Q : Component → Type 0)
    → Reaches rs c P
    → ((d : Component) → P d → Q d)
    → Reaches rs c Q
reaches-map rs c P Q (d, e, p) f = (d, e, f d p)

-- What requests reach is one component.
pub reached :
    (rs : List (World × Request)) (c d : Component) (P : Component → Type 0)
    → Reaches rs c P
    → run rs c ≡ ok d
    → P d
reached rs c d P (e, f, p) g = let same : e ≡ d = cc in subst P same p
