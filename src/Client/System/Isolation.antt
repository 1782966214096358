-- ===== src/Client/System/Isolation.antt =====
-- Which adapters the events of client_tcp_map.cpp change.
use wfc_io.Prelude.{ℕ, ◌≡◌, refl, sym, ap, ◌∙◌, ◌≢◌, List, [], ◌∷◌, ◌++◌, arith}
use wfc_io.Iface.{performs, registers, unregisters, invokes}
use wfc_io.Client.Map.{
  Event, starts, stops, calls, Op, creates, regs, unregs, sends, step, find, null,
}
use wfc_io.Client.Map.Ownership.{Inv}
use wfc_io.Client.Map.History.{IsInternal, step-Inv}
use wfc_io.Client.Map.Touching.{changes, touches, Foreign, step-touches}
use wfc_io.Client.Map.Refinement.{view}
use wfc_io.Client.Map.Refinement.Steps.{step-Allowed}
use wfc_io.Client.Map.Refinement.Keeping.{Spares, Allowed-keeps}
use wfc_io.Client.System.{World, Store, System, apply, drive, operate, run}

apply_untouched :
    (w : World) (e : Event) (c : ℕ) (st : Store) → changes c e ≡ 0 → (apply w e st).0 c ≡ st c
unfolding apply
apply_untouched w (starts cli opt) c st h = ground arith
apply_untouched w (stops cli) c st h = refl
apply_untouched w (calls (performs cli d id handler)) c st h = ground arith
apply_untouched w (calls (registers cli id itf)) c st h = ground arith
apply_untouched w (calls (unregisters cli id)) c st h = ground arith
apply_untouched w (calls (invokes f d)) c st h = refl

pub drive_untouched :
    (w : World) (es : List Event) (c : ℕ) (st : Store)
    → touches c es ≡ 0
    → (drive w es st).0 c ≡ st c
unfolding drive
drive_untouched w [] c st h = refl
drive_untouched w (e ∷ es) c st h =
    drive_untouched w es c (apply w e st).0 (omega arith) ∙ apply_untouched w e c st (omega arith)

pub drive-append :
    (w : World) (es fs : List Event) (st : Store)
    → (drive w (es ++ fs) st).0 ≡ (drive w fs (drive w es st).0).0
unfolding drive
drive-append w [] fs st = refl
drive-append w (e ∷ es) fs st = drive-append w es fs (apply w e st).0

Foreign-IsInternal : (id : ℕ) (op : Op) → Foreign id op → IsInternal op × Spares id op
Foreign-IsInternal id (creates j) k = (tt, tt)
Foreign-IsInternal id (regs j holder) k = (tt, tt)
Foreign-IsInternal id (unregs j) k = (tt, k)
Foreign-IsInternal id (sends d j handler) k = (tt, tt)
Foreign-IsInternal id _ k = absurd k

-- What a source has: its client, and the adapter that this is.
abbrev pub SameService : ℕ → System → System → Type 0
SameService id s t =
    let cli = find id s.clients in (find id t.clients ≡ cli) × (t.adapters cli ≡ s.adapters cli)

SameService-trans :
    (id : ℕ) (s t u : System) → SameService id s t → SameService id t u → SameService id s u
SameService-trans id s t u (e, a) (f, b) = (f ∙ e, ap u.adapters (sym e) ∙ b ∙ ap t.adapters e ∙ a)

pub operate-SameService :
    (w : World) (op : Op) (id : ℕ) (s : System)
    → Inv s.clients
    → find id s.clients ≢ null
    → Foreign id op
    → SameService id s (operate w op s).0
unfolding operate
operate-SameService w op id s v known k =
    let (i, p) = Foreign-IsInternal id op k in
    (
      Allowed-keeps id op (view s.clients) (view (step op s.clients).0) p
          (step-Allowed op s.clients i v) known,
      drive_untouched w (step op s.clients).1 (find id s.clients) s.adapters
          (step-touches id s.clients v known op k),
    )

abbrev pub AllForeign : ℕ → List (World × Op) → Type 0
AllForeign id [] = Unit
AllForeign id ((w, op) ∷ ops) = Foreign id op × AllForeign id ops

-- Sources do not disturb one another: whatever the other sources ask for, and whatever the TCP
-- clients do meanwhile, a source that has a client keeps that client, and the adapter stays as it
-- is, with the object to which it delivers.
pub run-SameService :
    (ops : List (World × Op)) (id : ℕ) (s : System)
    → Inv s.clients
    → find id s.clients ≢ null
    → AllForeign id ops
    → SameService id s (run ops s)
unfolding run
run-SameService [] id s v known k = (refl, refl)
run-SameService ((w, op) ∷ ops) id s v known k =
    let t = (operate w op s).0 in
    let (i, p) = Foreign-IsInternal id op k.0 in
    let first = operate-SameService w op id s v known k.0 in
    let vt : Inv t.clients = unfold operate in step-Inv op s.clients i v in
    SameService-trans id s t (run ops t) first
      (run-SameService ops id t vt (λ z. known (sym first.0 ∙ z)) k.1)
