-- ===== src/Client/Tcp/Timers.antt =====
-- The timers of a client_tcp object that reconfigures.
use wfc_io.Prelude.{
  ℕ, zero, suc, ◌+◌, ◌<◌, ◌≡◌, refl, sym, ◌∙◌, ◌≢◌, ap, inl, inr, true, none, some, List, [], ◌∷◌,
  ◌++◌, map, arith, Option-cases,
}
use wfc_io.Prelude.Dict.{Dict}
use wfc_io.Iface.{WeakPtr, Result, ok, ◌>>=◌}
use wfc_io.Client.Map.{ClientMap}
use wfc_io.Client.Map
use wfc_io.Client.Tcp.{
  ClientTcp, Statistics, Event, client, reg_io, reg_waiting, start_waiting, start_meters,
  configure_map, reconfigure_and_start, restart, client_options,
}

-- What no registration changes.
abbrev Fixed : ClientTcp → ClientTcp → Type 0
Fixed c d =
    (d.timers ≡ c.timers)
    × (d.statistics ≡ c.statistics)
    × ((c.client_map ≢ none) → (d.client_map ≢ none))

reg_io-Fixed : (id : ℕ) (itf : WeakPtr) (c : ClientTcp) → Fixed c (reg_io id itf c).0
unfolding reg_io
reg_io-Fixed id itf c = ground arith

reg_waiting-Fixed : (ws : Dict WeakPtr) (c : ClientTcp) → Fixed c (reg_waiting ws c).0
unfolding reg_waiting
reg_waiting-Fixed [] c = (refl, refl, λ h. h)
reg_waiting-Fixed ((id, itf) ∷ ws) c =
    let (a, b, h) = reg_io-Fixed id itf c in
    let (d, e, k) = reg_waiting-Fixed ws (reg_io id itf c).0 in (d ∙ a, e ∙ b, λ p. k (h p))

start_waiting-Fixed : (c : ClientTcp) → Fixed c (start_waiting c).0
unfolding start_waiting
start_waiting-Fixed c =
    ground (arith, reg_waiting-Fixed c.wait_list (record c { client_started = true }))

-- k starts one after the other.
pub restarts : ℕ → ClientTcp → Result ClientTcp
unfolding restart
restarts zero c = ok c
restarts (suc k) c = do (d, es) ← restart c; restarts k d

start_meters-timers :
    (c : ClientTcp) (s : Statistics)
    → c.statistics ≡ some s
    → 0 < s.names.tracking_ms
    → let d = (start_meters c).0 in
      (d.timers ≡ suc c.timers) × (d.statistics ≡ some s) × (d.client_map ≡ c.client_map)
unfolding start_meters
start_meters-timers c s e t = ground arith

restart-timers :
    (c : ClientTcp) (s : Statistics)
    → c.client_map ≢ none
    → c.statistics ≡ some s
    → 0 < s.names.tracking_ms
    → (d : ClientTcp) × (es : List Event) × (restart c ≡ ok (d, es))
      × (d.timers ≡ suc c.timers)
      × (d.statistics ≡ some s)
      × (d.client_map ≢ none)
unfolding restart reconfigure_and_start configure_map
restart-timers c s h e t = elim (Option-cases c.client_map) [
  | inl missing ↦ absurd (h missing)
  | inr (m, there) ↦
      let (m1, es1) = Map.reconfigure_and_start (client_options c.options) m in
      let c1 = record c { client_map = some m1 } in
      let (c2, es2) = start_waiting c1 in
      let (c3, es3) = start_meters c2 in
      let (a, b, k) = start_waiting-Fixed c1 in
      let (p, q, r) = start_meters-timers c2 s (b ∙ e) t in
      (
        c3,
        map client es1 ++ es2 ++ es3,
        rw (there, configure_map),
        p ∙ ap suc a,
        q,
        λ none_left. k (λ n. cc) (sym r ∙ none_left),
      )
]

-- A timer is never released: with statistics on, k starts of an object that has its map, one after
-- the other, return, and k timers more than before are running.
pub restarts-timers :
    (k : ℕ) (c : ClientTcp) (s : Statistics)
    → c.client_map ≢ none
    → c.statistics ≡ some s
    → 0 < s.names.tracking_ms
    → (d : ClientTcp) × (restarts k c ≡ ok d) × (d.timers ≡ c.timers + k)
unfolding restarts
restarts-timers zero c s h e t = (c, refl, omega arith)
restarts-timers (suc k) c s h e t =
    let (d, es, r, n, e', h') = restart-timers c s h e t in
    let (f, rs, total) = restarts-timers k d s h' e' t in (f, rw r rs, omega (arith, total, n))
