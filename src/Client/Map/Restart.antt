-- ===== src/Client/Map/Restart.antt =====
-- `stop` and `reconfigure_and_start` of client_tcp_map.cpp, as the sources see them.
use wfc_io.Prelude.{ℕ, ◌≤◌, ◌≡◌, refl, ◌≢◌, ◌↔◌, ◌⊎◌, inl, inr, true, false, List, [], ◌∷◌, arith}
use wfc_io.Prelude.Dict.{lookup, count-erase}
use wfc_io.Client.Options.{Config}
use wfc_io.Client.Map
use wfc_io.Client.Map.{
  ClientMap, Op, regs, unregs, sends, null, reg_io, unreg_io, perform_io, stop,
  reconfigure_and_start, step, run, find,
}
use wfc_io.Client.Map.Fill.{lookup-renew}
use wfc_io.Client.Map.Ownership.{Inv, holds}
use wfc_io.Client.Map.Ownership
use wfc_io.Client.Map.Steps.{
  stop_all_clients-stopped, stop_all_clients-started, reconfigure-started,
}

-- The calls of `iinterface`, which the sources make.
abbrev pub IsRequest : Op → Type 0
IsRequest (regs id holder) = Unit
IsRequest (unregs id) = Unit
IsRequest (sends d id handler) = Unit
IsRequest _ = ⊥

abbrev pub AllRequests : List Op → Type 0
AllRequests [] = Unit
AllRequests (op ∷ ops) = IsRequest op × AllRequests ops

pub step_ignored :
    (op : Op) (s : ClientMap) → IsRequest op → s.stop_flag ≡ true → step op s ≡ (s, [])
unfolding step reg_io unreg_io perform_io
step_ignored (regs id holder) s r h = ground arith
step_ignored (unregs id) s r h = ground arith
step_ignored (sends d id handler) s r h = ground arith
step_ignored _ s r h = absurd r

run_ignored :
    (ops : List Op) (s : ClientMap) → AllRequests ops → s.stop_flag ≡ true → run ops s ≡ (s, [])
unfolding run
run_ignored [] s r h = refl
run_ignored (op ∷ ops) s r h =
    rw (step_ignored op s r.0 h) (ground (arith, run_ignored ops s r.1 h))

-- `stop` stops each client as often as it is held and starts none; no client is held afterwards,
-- and whatever the sources then ask for changes nothing and makes no call.
pub stop_final :
    (s : ClientMap) (ops : List Op) (cli : ℕ)
    → AllRequests ops
    → let (t, es) = stop s in
      (Ownership.stopped cli es ≡ holds cli s)
      × (Ownership.started cli es ≡ 0)
      × (holds cli t ≡ 0)
      × (run ops t ≡ (t, []))
unfolding stop
stop_final s ops cli r =
    (stop_all_clients-stopped cli s, stop_all_clients-started cli s, refl, run_ignored ops _ r refl)

find-reconfigure :
    (id : ℕ) (opt : Config) (s : ClientMap)
    → Inv s
    → ((find id s ≡ null) × (find id (reconfigure_and_start opt s).0 ≡ null))
      ⊎ ((find id s ≢ null) × (s.next ≤ find id (reconfigure_and_start opt s).0))
unfolding find reconfigure_and_start
find-reconfigure id opt s v = elim (lookup-renew id s.next s.clients) [
  | inl (a, b) ↦ inl (rw (a, find), rw (b, find))
  | inr (c, d, a, b, h) ↦ ground (arith, v.nonnull, count-erase null id null s.clients, a, b)
]

-- `reconfigure_and_start` stops each client that is held and starts each client that is held
-- afterwards. A source has a client afterwards if it had one before, and only then, and that client
-- is a new one.
pub reconfigure_replaces :
    (opt : Config) (s : ClientMap) (cli id : ℕ)
    → Inv s
    → let (t, es) = reconfigure_and_start opt s in
      (Ownership.stopped cli es ≡ holds cli s)
      × (Ownership.started cli es ≡ holds cli t)
      × ((find id s ≡ null) ↔ (find id t ≡ null))
      × ((find id t ≡ null) ⊎ ((s.next ≤ find id t) × (holds (find id t) s ≡ 0)))
reconfigure_replaces opt s cli id v =
    let (a, b) = reconfigure-started opt s cli in
    let cases = find-reconfigure id opt s v in
    (
      b,
      a,
      (λ h. ground (arith, cases), λ h. ground (arith, cases, v.positive)),
      ground (arith, cases, v.fresh (find id (reconfigure_and_start opt s).0)),
    )

pub reconfigure-stop_flag :
    (opt : Config) (s : ClientMap) → (reconfigure_and_start opt s).0.stop_flag ≡ false
unfolding reconfigure_and_start
reconfigure-stop_flag opt s = refl

-- A map that is new serves nobody.
pub find-init : (opt : Config) (id : ℕ) → find id (Map.init opt) ≡ null
unfolding find Map.init lookup
find-init opt id = refl
