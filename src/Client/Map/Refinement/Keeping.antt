-- ===== src/Client/Map/Refinement/Keeping.antt =====
-- What a source of a `client_tcp_map` may rely on, by what the operations promise alone.
use wfc_io.Prelude.{ℕ, ◌≡◌, refl, ◌∙◌, ◌≢◌, List, [], ◌∷◌, arith, Bool-cases, inl, inr, ◌==◌, sym}
use wfc_io.Client.Options.{Config}
use wfc_io.Client.Map.{
  ClientMap, Op, reconfigures, stopped, creates, regs, unregs, sends, frees, null, init, run, find,
  step,
}
use wfc_io.Client.Map.History.{AllInternal, run-Inv}
use wfc_io.Client.Map.Refinement.{Service, view, Serves, Unless, Same, Allowed, Trace, ends, goes}
use wfc_io.Client.Map.Refinement.Steps.{refines_from}

-- The operation neither starts the map anew, nor stops it, nor is the leave of the source.
abbrev pub Spares : ℕ → Op → Type 0
Spares id (reconfigures opt) = ⊥
Spares id stopped = ⊥
Spares id (unregs j) = id ≢ j
Spares id _ = Unit

abbrev pub AllSpare : ℕ → List Op → Type 0
AllSpare id [] = Unit
AllSpare id (op ∷ ops) = Spares id op × AllSpare id ops

Serves-keeps :
    (id j : ℕ) (a b : Service) → Serves j a b → a.assigned id ≢ null → b.assigned id ≡ a.assigned id
Serves-keeps id j a b s h = elim (Bool-cases (id == j)) [
  | inl same ↦ ground (arith, s.keeps)
  | inr other ↦ s.others id (ground arith)
]

-- A request for a client takes none away.
request-keeps :
    (id j : ℕ) (a b : Service)
    → Unless a (Same a b) (Serves j a b)
    → a.assigned id ≢ null
    → b.assigned id ≡ a.assigned id
request-keeps id j a b (inl (halted, s)) h = s.all id
request-keeps id j a b (inr (running, s)) h = Serves-keeps id j a b s h

pub Allowed-keeps :
    (id : ℕ) (op : Op) (a b : Service)
    → Spares id op
    → Allowed op a b
    → a.assigned id ≢ null
    → b.assigned id ≡ a.assigned id
Allowed-keeps id (reconfigures opt) a b k s h = absurd k
Allowed-keeps id stopped a b k s h = absurd k
Allowed-keeps id (creates j) a b k s h = Serves-keeps id j a b s h
Allowed-keeps id (regs j holder) a b k s h = request-keeps id j a b s h
Allowed-keeps id (unregs j) a b k (inl (halted, s)) h = s.all id
Allowed-keeps id (unregs j) a b k (inr (running, s)) h = s.others id k
Allowed-keeps id (sends d j handler) a b k s h = request-keeps id j a b s h
Allowed-keeps id (frees cli) a b k s h = s.all id

Trace-keeps :
    (id : ℕ) {ops : List Op} {s t : ClientMap}
    → AllSpare id ops
    → Trace ops s t
    → find id s ≢ null
    → find id t ≡ find id s
Trace-keeps id k ends h = refl
Trace-keeps id k (goes {op} {ops} {s} {t} a x rest) h =
    let next = (step op s).0 in
    let e = Allowed-keeps id op (view s) (view next) k.0 a h in
    Trace-keeps id k.1 rest (λ z. h (sym e ∙ z)) ∙ e

-- A source keeps its client: if a source has a client after any history of calls other than `free`
-- of a map that is new, then it has the same client after any further such calls, whatever the
-- other sources ask for, unless the map is configured anew or stopped, or the source leaves.
pub source_keeps_client :
    (c : Config) (id : ℕ) (before after : List Op)
    → AllInternal before
    → AllInternal after
    → AllSpare id after
    → let s = (run before (init c)).0 in find id s ≢ null → find id (run after s).0 ≡ find id s
source_keeps_client c id before after i j k h =
    Trace-keeps id k (refines_from after (run before (init c)).0 j (run-Inv c before i)) h
