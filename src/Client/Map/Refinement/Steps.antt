-- ===== src/Client/Map/Refinement/Steps.antt =====
-- That `client_tcp_map` of client_tcp_map.cpp does what it promises to the sources.
use wfc_io.Prelude.{
  ℕ, ◌≤◌, ◌≡◌, refl, ap, ◌≢◌, inl, inr, true, false, some, List, [], ◌∷◌, arith, ◌==◌, Bool-cases,
}
use wfc_io.Prelude.Dict.{lookup, erase, lookup-erase, count-erase}
use wfc_io.Iface.{DataPtr, WeakPtr, Handler}
use wfc_io.Client.Options.{Config}
use wfc_io.Client.Map.{
  ClientMap, Event, release, Op, reconfigures, stopped, creates, regs, unregs, sends, frees, null,
  init, create, reg_io, unreg_io, perform_io, stop, reconfigure_and_start, upsert, step, run, find,
}
use wfc_io.Client.Map.Ownership.{Inv, holds}
use wfc_io.Client.Map.History.{IsInternal, AllInternal, step-Inv, init-Inv}
use wfc_io.Client.Map.Create.{find-lookup}
use wfc_io.Client.Map.Pools.{upsert-Leaves}
use wfc_io.Client.Map.Registry.{find-upsert, unreg_io_lem}
use wfc_io.Client.Map.Restart.{IsRequest, step_ignored, reconfigure_replaces, reconfigure-stop_flag}
use wfc_io.Client.Map.Refinement.{
  Service, view, Exclusive, Same, Serves, Forgets, Renews, Ends, Unless, Allowed, Trace, ends, goes,
}

-- A client that serves a source is held by the map.
pub serving-holds : (id : ℕ) (s : ClientMap) → find id s ≢ null → 1 ≤ holds (find id s) s
serving-holds id s h =
    ground (arith, count-erase (find id s) id (find id s) s.clients (find-lookup id s h))

two-holds :
    (i j : ℕ) (s : ClientMap)
    → Inv s
    → i ≢ j
    → find i s ≢ null
    → find i s ≡ find j s
    → 2 ≤ holds (find i s) s
two-holds i j s v other h e =
    let c = find i s in
    let left : lookup j (erase i s.clients) ≡ some c =
      ground (arith, lookup-erase i j 0 s.clients v.sorted, find-lookup j s) in
    ground (
      arith,
      count-erase c i c s.clients (find-lookup i s h),
      count-erase c j c (erase i s.clients) left,
    )

pub Inv-Exclusive : (s : ClientMap) → Inv s → Exclusive (view s)
Inv-Exclusive s v i j h e = elim (Bool-cases (i == j)) [
  | inl same ↦ ground arith
  | inr other ↦ ground (arith, two-holds i j s v, v.single (find i s))
]

upsert-Serves : (id : ℕ) (s : ClientMap) → Inv s → Serves id (view s) (view (upsert id s).1)
upsert-Serves id s v =
    let u = find-upsert id id s v in
    record {
      there = ground (arith, u);
      keeps = λ h. ground (arith, u);
      others = λ j h. ground (arith, find-upsert id j s v);
      flag = (upsert-Leaves id s).stop_flag;
    }

reconfigure-Renews :
    (opt : Config) (s : ClientMap) → Inv s → Renews (view s) (view (reconfigure_and_start opt s).0)
reconfigure-Renews opt s v = record {
  served = λ j. (reconfigure_replaces opt s null j v).2;
  fresh = λ i j h e. ground (arith, (reconfigure_replaces opt s null j v).3, serving-holds i s);
  flag = reconfigure-stop_flag opt s;
}

Same-refl : (a : Service) → Same a a
Same-refl a = record { all = λ j. refl; flag = refl }

stop-Ends : (s : ClientMap) → Ends (view (stop s).0)
unfolding stop find lookup
stop-Ends s = record { nobody = λ j. refl; flag = refl }

Unless-intro :
    (Done : Service → Service → Type 0) (s t : ClientMap)
    → (s.stop_flag ≡ true → t ≡ s)
    → (s.stop_flag ≡ false → Done (view s) (view t))
    → Unless (view s) (Same (view s) (view t)) (Done (view s) (view t))
Unless-intro Done s t ignored done = elim (Bool-cases s.stop_flag) [
  | inl halted ↦ inl (halted, rw (ignored halted) (Same-refl (view s)))
  | inr running ↦ inr (running, done running)
]

ignores : (op : Op) (s : ClientMap) → IsRequest op → s.stop_flag ≡ true → (step op s).0 ≡ s
ignores op s r halted = ap (λ (x : ClientMap × List Event). x.0) (step_ignored op s r halted)

-- While the map runs, the requests that look for a client leave what `upsert_` leaves.
reg_io-upsert :
    (id : ℕ) (holder : WeakPtr) (s : ClientMap)
    → s.stop_flag ≡ false
    → (reg_io id holder s).0 ≡ (upsert id s).1
unfolding reg_io
reg_io-upsert id holder s running = ground arith

perform_io-upsert :
    (d : DataPtr) (id : ℕ) (handler : Handler) (s : ClientMap)
    → s.stop_flag ≡ false
    → (perform_io d id handler s).0 ≡ (upsert id s).1
unfolding perform_io create upsert
perform_io-upsert d id handler s running = ground arith

unreg_io_unknown : (id : ℕ) (s : ClientMap) → find id s ≡ null → (unreg_io id s).0 ≡ s
unfolding unreg_io
unreg_io_unknown id s unknown = ground arith

unreg_io-stop_flag : (id : ℕ) (s : ClientMap) → (unreg_io id s).0.stop_flag ≡ s.stop_flag
unfolding unreg_io release
unreg_io-stop_flag id s = ground arith

unreg_io-Forgets :
    (id : ℕ) (s : ClientMap)
    → Inv s
    → s.stop_flag ≡ false
    → Forgets id (view s) (view (unreg_io id s).0)
unreg_io-Forgets id s v running = elim (Bool-cases (find id s == null)) [
  | inl unknown ↦
      rw (unreg_io_unknown id s (ground arith))
        (record { gone = ground arith; others = λ j h. refl; flag = refl })
  | inr known ↦ record {
    gone = ground (arith, unreg_io_lem id id s v running);
    others = λ j h. ground (arith, unreg_io_lem id j s v running);
    flag = unreg_io-stop_flag id s;
  }
]

pub step-Allowed :
    (op : Op) (s : ClientMap) → IsInternal op → Inv s → Allowed op (view s) (view (step op s).0)
unfolding step create
step-Allowed (reconfigures opt) s i v = reconfigure-Renews opt s v
step-Allowed stopped s i v = stop-Ends s
step-Allowed (creates id) s i v = upsert-Serves id s v
step-Allowed (regs id holder) s i v =
    Unless-intro (Serves id) s (step (regs id holder) s).0 (ignores (regs id holder) s tt)
      (λ running. rw (reg_io-upsert id holder s running) (upsert-Serves id s v))
step-Allowed (unregs id) s i v =
    Unless-intro (Forgets id) s (step (unregs id) s).0 (ignores (unregs id) s tt)
      (unreg_io-Forgets id s v)
step-Allowed (sends d id handler) s i v =
    Unless-intro (Serves id) s (step (sends d id handler) s).0 (ignores (sends d id handler) s tt)
      (λ running. rw (perform_io-upsert d id handler s running) (upsert-Serves id s v))
step-Allowed (frees cli) s i v = absurd i

pub refines_from :
    (ops : List Op) (s : ClientMap) → AllInternal ops → Inv s → Trace ops s (run ops s).0
unfolding run
refines_from [] s i v = ends
refines_from (op ∷ ops) s i v =
    let w = step-Inv op s i.0 v in
    goes (step-Allowed op s i.0 v) (Inv-Exclusive (step op s).0 w)
      (refines_from ops (step op s).0 i.1 w)

-- A `client_tcp_map` refines the assignment of clients to sources: in any history of calls other
-- than `free` of a map that is new, each operation makes of the assignment that the map has when it
-- runs what it may, and after none do two sources have the same client. A source that asks for a
-- client has one afterwards, the one that it had just before, if it had one; a source that leaves
-- has none, and neither changes what the other sources have; a reconfiguration gives each source
-- that is served, and no other, a client that served nobody just before; `stop` leaves nobody
-- served; and while the map is stopped, what the sources ask for changes nothing.
pub run_refines :
    (c : Config) (ops : List Op) → AllInternal ops → Trace ops (init c) (run ops (init c)).0
run_refines c ops i = refines_from ops (init c) i (init-Inv c)
