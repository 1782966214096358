-- ===== src/Client/Map/Dropping.antt =====
-- Which clients of a `client_tcp_map` of client_tcp_map.cpp lose the last pointer to them.
use wfc_io.Prelude.{
  ℕ, ◌≤◌, ◌≡◌, inl, inr, List, [], ◌∷◌, ◌++◌, arith, ◌==◌, Bool-cases, if◌then◌else◌, count,
  count-append,
}
use wfc_io.Prelude.Dict.{values}
use wfc_io.Iface.{registers, performs}
use wfc_io.Client.Map.{
  ClientMap, calls, Op, reconfigures, stopped, creates, regs, unregs, sends, frees, null, find,
  step, upsert, upsert_commit, create, reg_io, perform_io,
}
use wfc_io.Client.Map.Ownership.{Inv, holds, stopped-append}
use wfc_io.Client.Map.Ownership
use wfc_io.Client.Map.History.{IsInternal, step-Grows}
use wfc_io.Client.Map.Create.{create_client-Takes}
use wfc_io.Client.Map.Registry.{unreg_io_lem, unreg_unknown}
use wfc_io.Client.Map.Restart.{stop_final, reconfigure_replaces, step_ignored}
use wfc_io.Client.Map.Refinement.Steps.{serving-holds}

-- The clients to which the map points.
abbrev pub held : ClientMap → List ℕ
held s = values s.clients ++ s.primary ++ s.secondary ++ s.startup

pub count-held : (c : ℕ) (s : ClientMap) → count c (held s) ≡ holds c s
count-held c s = omega (
  arith,
  count-append c (values s.clients ++ s.primary ++ s.secondary) s.startup,
  count-append c (values s.clients ++ s.primary) s.secondary,
  count-append c (values s.clients) s.primary,
)

-- Those of some clients to which it points no more.
unfoldable pub unheld : ClientMap → List ℕ → List ℕ
unheld t [] = []
unheld t (c ∷ cs) = let rest = unheld t cs in if holds c t == 0 then c ∷ rest else rest

count-unheld :
    (c : ℕ) (t : ClientMap) (cs : List ℕ)
    → count c (unheld t cs) ≡ (if holds c t == 0 then count c cs else 0)
unfolding unheld
count-unheld c t [] = ground arith
count-unheld c t (d ∷ cs) = elim (Bool-cases (c == d)) [
  | inl own ↦ let e : c ≡ d = ground arith in ground (arith, e, count-unheld c t cs)
  | inr other ↦ ground (arith, count-unheld c t cs)
]

-- The clients that lose their last pointer between two states.
abbrev pub dropped : ClientMap → ClientMap → List ℕ
dropped s t = unheld t (held s)

pub count-dropped :
    (c : ℕ) (s t : ClientMap) → count c (dropped s t) ≡ (if holds c t == 0 then holds c s else 0)
count-dropped c s t = ground (arith, count-unheld c t (held s), count-held c s)

upsert-stopped : (c id : ℕ) (s : ClientMap) → Ownership.stopped c (upsert id s).2 ≡ 0
unfolding upsert upsert_commit
upsert-stopped c id s = ground (arith, (create_client-Takes s).quiet c)

unregs-stopped :
    (c id : ℕ) (s : ClientMap) → Inv s → Ownership.stopped c (step (unregs id) s).1 ≤ holds c s
unfolding step
unregs-stopped c id s v = elim (Bool-cases s.stop_flag) [
  | inl halted ↦ rw (step_ignored (unregs id) s tt halted) (omega arith)
  | inr running ↦ elim (Bool-cases (find id s == null)) [
    | inl new ↦ rw (unreg_unknown id s (ground arith)) (omega arith)
    | inr known ↦
        rw (unreg_io_lem id id s v running (ground arith)).2
          (ground (arith, serving-holds id s (ground arith)))
  ]
]

-- An operation stops only clients that the map holds.
stopped-le-holds :
    (op : Op) (c : ℕ) (s : ClientMap)
    → IsInternal op
    → Inv s
    → Ownership.stopped c (step op s).1 ≤ holds c s
unfolding step create reg_io perform_io
stopped-le-holds (reconfigures opt) c s i v = omega (arith, (reconfigure_replaces opt s c c v).0)
stopped-le-holds stopped c s i v = omega (arith, (stop_final s [] c tt).0)
stopped-le-holds (creates id) c s i v = omega (arith, upsert-stopped c id s)
stopped-le-holds (regs id itf) c s i v =
    let (cli, t, es) = upsert id s in
    ground (arith, upsert-stopped c id s, stopped-append c es (calls (registers cli id itf) ∷ []))
stopped-le-holds (unregs id) c s i v = unfold step in unregs-stopped c id s v
stopped-le-holds (sends d id handler) c s i v =
    let (cli, t, es) = upsert id s in
    ground
      (arith, upsert-stopped c id s, stopped-append c es (calls (performs cli d id handler) ∷ []))
stopped-le-holds (frees cli) c s i v = absurd i

-- A client loses its last pointer in the operation that stops it, and in no other.
pub stopped-dropped :
    (op : Op) (c : ℕ) (s : ClientMap)
    → IsInternal op
    → Inv s
    → count c (dropped s (step op s).0) ≡ Ownership.stopped c (step op s).1
stopped-dropped op c s i v =
    let t = (step op s).0 in
    let g = step-Grows op s i v in
    ground (
      arith,
      count-dropped c s t,
      stopped-le-holds op c s i v,
      g.balance c,
      g.once c,
      g.above c,
      v.fresh c,
      v.single c,
    )
