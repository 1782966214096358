-- ===== src/Client/System/Binding.antt =====
-- client_tcp_map.cpp over the adapters: the object to which the client of a source delivers, and
-- what leaves it in place.
use mathlib.Core.List.{append-nil}
use mathlib.Core.Path.{subst}
use wfc_io.Prelude.{
  map, ℕ, ◌≡◌, refl, sym, ap, ◌∙◌, ◌≢◌, inl, inr, true, false, none, some, List, [], ◌∷◌, arith,
  ◌==◌, Bool-cases, ◌++◌, if◌then◌else◌,
}
use wfc_io.Iface.{
  WeakPtr, answering, registers, invokes, is_empty, DataPtr, Alive, Handler, performs,
}
use wfc_io.Client.Map.{
  Event, calls, Op, creates, regs, unregs, sends, step, reg_io, upsert, find, null,
}
use wfc_io.Client.Map.Ownership.{Inv}
use wfc_io.Client.Map.Touching.{Foreign}
use wfc_io.Client.Map.Registry.{reg_io_lem, sends_known}
use wfc_io.Client.Adapter
use wfc_io.Client.Adapter.{Holder, receive}
use wfc_io.Client.Adapter.Performing.{Wire, wrap_holder, send_data}
use wfc_io.Client.Adapter.Performing as Performing
use wfc_io.Client.Adapter.Holders.{send_data-SameHolder}
use wfc_io.Client.System.{World, Store, System, apply, drive, operate, run}
use wfc_io.Client.System.Isolation.{drive-append, operate-SameService, AllForeign, run-SameService}

-- To what comes in, the adapter answers with the message to this object and no other.
abbrev pub Delivers : Alive → ℕ → Adapter.Adapter → Type 0
Delivers alive n a =
    (d : DataPtr) (handler : Handler)
    → receive alive d handler a ≡ (
        if a.keep_alive
        then Adapter.calls (performs n d a.id handler) ∷ []
        else (if is_empty handler then [] else Adapter.calls (invokes handler none) ∷ [])
          ++ Adapter.calls (performs n d a.id (answering a.self)) ∷ [])

abbrev pub adapter_of : ℕ → System → Adapter.Adapter
adapter_of id s = s.adapters (find id s.clients)

pub drive-registers :
    (w : World) (es : List Event) (cli id : ℕ) (itf : WeakPtr) (st : Store)
    → (drive w (es ++ calls (registers cli id itf) ∷ []) st).0 cli
      ≡ (Adapter.reg_io w.alive id itf ((drive w es st).0 cli)).0
drive-registers w es cli id itf st =
    rw (drive-append w es (calls (registers cli id itf) ∷ []) st)
      (unfold drive in unfold apply in ground arith)

-- The client of the source points to the object.
abbrev pub Bound : ℕ → ℕ → System → Type 0
Bound id n s = (find id s.clients ≢ null) × ((adapter_of id s).holder ≡ Holder.object n)

receive_object :
    (later : Alive) (n : ℕ) (a : Adapter.Adapter)
    → a.holder ≡ Holder.object n
    → later n ≡ true
    → Delivers later n a
unfolding receive
receive_object later n a h there d handler = ground (arith, h, there)

pub Bound-Delivers :
    (later : Alive) (id n : ℕ) (s : System)
    → Bound id n s
    → later n ≡ true
    → Delivers later n (adapter_of id s)
Bound-Delivers later id n s b there = receive_object later n (adapter_of id s) b.1 there

reg_io-holder :
    (alive : Alive) (id n : ℕ) (a : Adapter.Adapter)
    → (Adapter.reg_io alive id (some n) a).0.holder ≡ Holder.object n
unfolding Adapter.reg_io
reg_io-holder alive id n a = refl

-- A source that registers an object with a map that runs has a client that points to it.
pub regs-Bound :
    (w : World) (id n : ℕ) (s : System)
    → Inv s.clients
    → s.clients.stop_flag ≡ false
    → Bound id n (operate w (regs id (some n)) s).0
unfolding operate step
regs-Bound w id n s v running =
    let (known, kept, es, on) = reg_io_lem id id (some n) s.clients v running in
    let cli = find id (reg_io id (some n) s.clients).0 in
    let told =
      ap (λ fs. (drive w fs s.adapters).0 cli) es
      ∙ drive-registers w (upsert id s.clients).2 cli id (some n) s.adapters in
    (
      known,
      rw told (reg_io-holder w.alive id n ((drive w (upsert id s.clients).2 s.adapters).0 cli)),
    )

wrap_holder_kept :
    (alive : Alive) (id n : ℕ) (handler : Handler) (a : Adapter.Adapter)
    → a.holder ≡ Holder.object n
    → alive n ≡ true
    → id ≢ 0
    → wrap_holder alive id handler a ≡ (a, [])
unfolding wrap_holder
wrap_holder_kept alive id n handler a h there real = ground (arith, h, there)

perform_io_kept :
    (alive : Alive) (wire : Wire) (d : DataPtr) (id n : ℕ) (handler : Handler) (a : Adapter.Adapter)
    → a.holder ≡ Holder.object n
    → alive n ≡ true
    → id ≢ 0
    → Performing.perform_io alive wire d id handler a ≡ send_data wire d handler a
unfolding Performing.perform_io
perform_io_kept alive wire d id n handler a h there real =
    rw (wrap_holder_kept alive id n handler a h there real)

-- What a message of a source over its own client does: the data goes to that client alone, whose
-- holder stays.
pub record Sent (w : World) (d : DataPtr) (id : ℕ) (handler : Handler) (s : System) : Type 0 where
  pub same_map : (operate w (sends d id handler) s).0.clients ≡ s.clients
  pub output :
      (operate w (sends d id handler) s).1
      ≡ map
          (λ e. (find id s.clients, e))
          (send_data (w.wire (find id s.clients)) d handler (adapter_of id s)).1
  pub holder :
      ((operate w (sends d id handler) s).0.adapters (find id s.clients)).holder
      ≡ (adapter_of id s).holder

pub operate-Sent :
    (w : World) (d : DataPtr) (id n : ℕ) (handler : Handler) (s : System)
    → s.clients.stop_flag ≡ false
    → Bound id n s
    → w.alive n ≡ true
    → id ≢ 0
    → Sent w d id handler s
unfolding operate apply drive
operate-Sent w d id n handler s running b there real =
    let cli = find id s.clients in
    let e = sends_known d id handler s.clients running b.0 in
    let f = perform_io_kept w.alive (w.wire cli) d id n handler (adapter_of id s) b.1 there real in
    let k = send_data-SameHolder (w.wire cli) d handler (adapter_of id s) in
    record {
      same_map = rw e;
      output = rw e (rw f (append-nil _));
      holder = rw e (
          ground
            (arith, ap (λ (x : Adapter.Adapter × List Adapter.Event). x.0.holder) f, k.holder));
    }

-- What leaves the object of a source in place: what other sources ask for, and messages of the
-- source itself while the object is there.
abbrev pub Friendly : ℕ → ℕ → World → Op → Type 0
Friendly id n w (creates j) = Unit
Friendly id n w (regs j holder) = id ≢ j
Friendly id n w (unregs j) = id ≢ j
Friendly id n w (sends d j handler) = id ≡ j → w.alive n ≡ true
Friendly id n w _ = ⊥

Foreign-Bound :
    (w : World) (op : Op) (id n : ℕ) (s : System)
    → Inv s.clients
    → Bound id n s
    → Foreign id op
    → Bound id n (operate w op s).0
Foreign-Bound w op id n s v b k =
    let (same, adapter) = operate-SameService w op id s v b.0 k in
    let t = (operate w op s).0 in
    (
      λ e. b.0 (sym same ∙ e),
      ap (λ c. (t.adapters c).holder) same ∙ ap (λ (a : Adapter.Adapter). a.holder) adapter ∙ b.1,
    )

pub run-Bound :
    (ops : List (World × Op)) (id n : ℕ) (s : System)
    → Inv s.clients
    → Bound id n s
    → AllForeign id ops
    → Bound id n (run ops s)
run-Bound ops id n s v b k =
    let (same, adapter) = run-SameService ops id s v b.0 k in
    let t = run ops s in
    (
      λ e. b.0 (sym same ∙ e),
      ap (λ c. (t.adapters c).holder) same ∙ ap (λ (a : Adapter.Adapter). a.holder) adapter ∙ b.1,
    )

own-Bound :
    (w : World) (d : DataPtr) (id n : ℕ) (handler : Handler) (s : System)
    → s.clients.stop_flag ≡ false
    → Bound id n s
    → w.alive n ≡ true
    → id ≢ 0
    → Bound id n (operate w (sends d id handler) s).0
own-Bound w d id n handler s running b there real =
    let k = operate-Sent w d id n handler s running b there real in
    let t = (operate w (sends d id handler) s).0 in
    let same : find id t.clients ≡ find id s.clients = ap (find id) k.same_map in
    (λ e. b.0 (sym same ∙ e), ap (λ c. (t.adapters c).holder) same ∙ k.holder ∙ b.1)

pub operate-Bound :
    (w : World) (op : Op) (id n : ℕ) (s : System)
    → Inv s.clients
    → s.clients.stop_flag ≡ false
    → id ≢ 0
    → Bound id n s
    → Friendly id n w op
    → Bound id n (operate w op s).0
operate-Bound w (creates j) id n s v running real b k = Foreign-Bound w (creates j) id n s v b k
operate-Bound w (regs j holder) id n s v running real b k =
    Foreign-Bound w (regs j holder) id n s v b k
operate-Bound w (unregs j) id n s v running real b k = Foreign-Bound w (unregs j) id n s v b k
operate-Bound w (sends d j handler) id n s v running real b k = elim (Bool-cases (id == j)) [
  | inl own ↦
      let e : id ≡ j = ground arith in
      subst (λ i. Bound id n (operate w (sends d i handler) s).0) e
        (own-Bound w d id n handler s running b (k e) real)
  | inr other ↦ Foreign-Bound w (sends d j handler) id n s v b (ground arith)
]
operate-Bound w _ id n s v running real b k = absurd k
