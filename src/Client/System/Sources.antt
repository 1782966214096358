-- ===== src/Client/System/Sources.antt =====
-- client_tcp_map.cpp over the adapters: for which source an adapter is noted.
use mathlib.Core.Path.{subst}
use wfc_io.Prelude.{
  ℕ, ◌≡◌, sym, ap, ◌∙◌, ◌≢◌, ◌⊎◌, inl, inr, true, false, List, [], ◌∷◌, arith, ◌==◌, Bool-cases,
}
use wfc_io.Iface.{DataPtr, WeakPtr, Handler}
use wfc_io.Client.Options.{Config}
use wfc_io.Client.Map.{
  ClientMap, Event, starts, stops, calls, Op, reconfigures, stopped, creates, regs, unregs, sends,
  null, find, step, reg_io, unreg_io, upsert,
}
use wfc_io.Client.Map
use wfc_io.Client.Map.Ownership.{Inv}
use wfc_io.Client.Map.History.{IsInternal, step-Inv}
use wfc_io.Client.Map.Registry.{reg_io_lem, perform_io_lem, unreg_io_lem, unreg_unknown, room}
use wfc_io.Client.Map.Restart.{IsRequest, step_ignored}
use wfc_io.Client.Map.Calling.{creates-called, upsert-called, stop-called, reconfigure-called}
use wfc_io.Client.Map.Refinement.{Serves, Forgets, view}
use wfc_io.Client.Map.Refinement.Steps.{step-Allowed}
use wfc_io.Client.Map.Owning.{
  Owned, Owned-own, Owned-other, Owned-leaving, Owned-left, Owned-stop, Owned-reconfigure,
}
use wfc_io.Client.System.{World, System, drive, operate, run}
use wfc_io.Client.System.Serving.{AllInternal}
use wfc_io.Client.System.Noting.{
  noted, drive-noted, registers-noted, performs-noted, unregisters-noted,
}

-- Every adapter is noted for no source, or for the source that its client serves, unless nobody
-- holds it any more.
abbrev pub Noted : System → Type 0
Noted s = (c : ℕ) → Owned s.clients c (noted c s.adapters)

-- After a request of a source the client that serves it is noted for it or as before, and every
-- other one as before.
request-Noted :
    (op : Op) (id c : ℕ) (s : System) (now : ℕ)
    → IsInternal op
    → Inv s.clients
    → Serves id (view s.clients) (view (step op s.clients).0)
    → Owned s.clients c (noted c s.adapters)
    → (now ≡ noted c s.adapters) ⊎ ((c ≡ find id (step op s.clients).0) × (now ≡ id))
    → Owned (step op s.clients).0 c now
request-Noted op id c s now i v serves o (inr (here, e)) =
    inr (inl (ap (λ j. find j (step op s.clients).0) e ∙ sym here))
request-Noted op id c s now i v serves o (inl same) =
    let t = (step op s.clients).0 in
    elim (Bool-cases (c == find id t)) [
      | inl here ↦
          let e : c ≡ find id t = ground arith in
          let own =
            Owned-own op s.clients i v id (noted c s.adapters) serves
              (subst (λ x. Owned s.clients x (noted c s.adapters)) e o) in
          elim own [
            | inl nobody ↦ inl (same ∙ nobody)
            | inr mine ↦ inr (inl (ap (λ j. find j t) (same ∙ mine) ∙ sym e))
          ]
      | inr there ↦
          subst (Owned t c) (sym same)
            (Owned-other op s.clients i v id c (noted c s.adapters) serves (ground arith) o)
    ]

halted-Noted :
    (w : World) (op : Op) (s : System)
    → IsRequest op
    → s.clients.stop_flag ≡ true
    → Noted s
    → Noted (operate w op s).0
unfolding operate drive
halted-Noted w op s r halted n = rw (step_ignored op s.clients r halted) n

creates-Noted :
    (w : World) (id : ℕ) (s : System) → Inv s.clients → Noted s → Noted (operate w (creates id) s).0
unfolding operate
creates-Noted w id s v n c =
    request-Noted (creates id) id c s _ tt v (step-Allowed (creates id) s.clients tt v) (n c) (
      inl (
        drive-noted w (step (creates id) s.clients).1 c s.adapters (creates-called c id s.clients)))

regs-Noted :
    (w : World) (id : ℕ) (itf : WeakPtr) (s : System)
    → Inv s.clients
    → s.clients.stop_flag ≡ false
    → Serves id (view s.clients) (view (step (regs id itf) s.clients).0)
    → Noted s
    → Noted (operate w (regs id itf) s).0
unfolding operate step
regs-Noted w id itf s v running serves n c =
    let (known, kept, es, on) = reg_io_lem id id itf s.clients v running in
    let cli = find id (reg_io id itf s.clients).0 in
    let e =
      registers-noted w (upsert id s.clients).2 cli id c itf s.adapters
        (λ j. upsert-called j id s.clients) in
    request-Noted (regs id itf) id c s _ tt v serves (n c) (rw es (ground (arith, e)))

sends-Noted :
    (w : World) (d : DataPtr) (id : ℕ) (handler : Handler) (s : System)
    → Inv s.clients
    → s.clients.stop_flag ≡ false
    → Serves id (view s.clients) (view (step (sends d id handler) s.clients).0)
    → Noted s
    → Noted (operate w (sends d id handler) s).0
unfolding operate step
sends-Noted w d id handler s v running serves n c =
    let es = (perform_io_lem d id handler s.clients v running).1 in
    let cli = find id (Map.perform_io d id handler s.clients).0 in
    let e =
      performs-noted w (upsert id s.clients).2 cli id c d handler s.adapters
        (λ j. upsert-called j id s.clients) in
    request-Noted (sends d id handler) id c s _ tt v serves (n c) (rw es e)

known-Noted :
    (w : World) (id : ℕ) (s : System)
    → Inv s.clients
    → s.clients.stop_flag ≡ false
    → find id s.clients ≢ null
    → Forgets id (view s.clients) (view (step (unregs id) s.clients).0)
    → Noted s
    → Noted (operate w (unregs id) s).0
unfolding operate step
known-Noted w id s v running known forgets n c =
    let cli = find id s.clients in
    let es = (unreg_io_lem id id s.clients v running known).2 in
    let e = unregisters-noted w cli id c (room s.clients) s.adapters in
    rw es (elim (Bool-cases (c == cli)) [
      | inl here ↦
          inl (ground (arith, e, Owned-leaving id (noted cli s.adapters) s.clients v known (n cli)))
      | inr there ↦ subst (Owned (unreg_io id s.clients).0 c) (sym (ground (arith, e))) (
          Owned-left (unregs id) id c (noted c s.adapters) s.clients tt v forgets (ground arith)
            (n c))
    ])

unregs-Noted :
    (w : World) (id : ℕ) (s : System)
    → Inv s.clients
    → s.clients.stop_flag ≡ false
    → Forgets id (view s.clients) (view (step (unregs id) s.clients).0)
    → Noted s
    → Noted (operate w (unregs id) s).0
unregs-Noted w id s v running forgets n = elim (Bool-cases (find id s.clients == null)) [
  | inl new ↦
      unfold operate in
      unfold step in unfold drive in rw (unreg_unknown id s.clients (ground arith)) n
  | inr known ↦ known-Noted w id s v running (ground arith) forgets n
]

stopped-Noted : (w : World) (s : System) → Inv s.clients → Noted s → Noted (operate w stopped s).0
unfolding operate step
stopped-Noted w s v n c =
    subst (Owned (Map.stop s.clients).0 c)
      (sym (drive-noted w (Map.stop s.clients).1 c s.adapters (stop-called c s.clients)))
      (Owned-stop c (noted c s.adapters) s.clients v (n c))

reconfigures-Noted :
    (w : World) (opt : Config) (s : System)
    → Inv s.clients
    → Noted s
    → Noted (operate w (reconfigures opt) s).0
unfolding operate step
reconfigures-Noted w opt s v n c =
    let (t, es) = Map.reconfigure_and_start opt s.clients in
    subst (Owned t c) (sym (drive-noted w es c s.adapters (reconfigure-called c opt s.clients)))
      (Owned-reconfigure opt c (noted c s.adapters) s.clients v (n c))

pub operate-Noted :
    (w : World) (op : Op) (s : System)
    → IsInternal op
    → Inv s.clients
    → Noted s
    → Noted (operate w op s).0
operate-Noted w (reconfigures opt) s i v n = reconfigures-Noted w opt s v n
operate-Noted w stopped s i v n = stopped-Noted w s v n
operate-Noted w (creates id) s i v n = creates-Noted w id s v n
operate-Noted w (regs id itf) s i v n = elim (step-Allowed (regs id itf) s.clients tt v) [
  | inl (halted, _) ↦ halted-Noted w (regs id itf) s tt halted n
  | inr (running, serves) ↦ regs-Noted w id itf s v running serves n
]
operate-Noted w (unregs id) s i v n = elim (step-Allowed (unregs id) s.clients tt v) [
  | inl (halted, _) ↦ halted-Noted w (unregs id) s tt halted n
  | inr (running, forgets) ↦ unregs-Noted w id s v running forgets n
]
operate-Noted w (sends d id handler) s i v n =
    elim (step-Allowed (sends d id handler) s.clients tt v) [
      | inl (halted, _) ↦ halted-Noted w (sends d id handler) s tt halted n
      | inr (running, serves) ↦ sends-Noted w d id handler s v running serves n
    ]
operate-Noted w _ s i v n = absurd i

pub run-Noted :
    (ops : List (World × Op)) (s : System)
    → AllInternal ops
    → Inv s.clients
    → Noted s
    → Noted (run ops s)
unfolding run
run-Noted [] s i v n = n
run-Noted ((w, op) ∷ ops) s i v n =
    run-Noted ops (operate w op s).0 i.1 (unfold operate in step-Inv op s.clients i.0 v)
      (operate-Noted w op s i.0 v n)
