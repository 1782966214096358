-- ===== src/Client/System/Lifetime.antt =====
-- The end of the adapters of client_tcp_adapter.cpp that client_tcp_map.cpp points to no more.
use wfc_io.Prelude.{
  ℕ, ◌≡◌, refl, Bool, true, List, [], ◌∷◌, ◌++◌, arith, map, ◌==◌, if◌then◌else◌, is, count, total,
  total-append,
}
use wfc_io.Iface.{Alive, performs, registers, unregisters, invokes}
use wfc_io.Client.Options.{Config}
use wfc_io.Client.Map.{Event, starts, stops, calls, Op, step}
use wfc_io.Client.Map.Ownership.{Inv}
use wfc_io.Client.Map.Ownership
use wfc_io.Client.Map.History.{IsInternal, init-Inv}
use wfc_io.Client.Map.Dropping.{dropped, stopped-dropped}
use wfc_io.Client.Adapter
use wfc_io.Client.Adapter.{Holder, destroy}
use wfc_io.Client.Adapter.Performing.{Wire, wrap_holder, send_data, try_anew, unsent}
use wfc_io.Client.Adapter.Performing as Performing
use wfc_io.Client.System.{World, Store, Output, System, init, apply, drive, operate, run}
use wfc_io.Client.System.Serving.{AllInternal, run-Inv}

-- The destructors of some clients.
pub destroys : World → Store → List ℕ → Output
destroys w st [] = []
destroys w st (c ∷ cs) = map (λ e. (c, e)) (destroy w.alive (st c)) ++ destroys w st cs

-- An operation of the map, with what it does to the adapters and, at the end, the destructors of
-- those to which the map points no more. While an operation runs no closure of theirs does.
unfoldable pub conclude : World → Op → System → System × Output
unfolding operate destroys
conclude w op s =
    let (t, os) = operate w op s in (t, os ++ destroys w t.adapters (dropped s.clients t.clients))

-- How often an adapter tells an object that it unregisters.
abbrev tells : ℕ → ℕ → Adapter.Event → ℕ
tells n i (Adapter.calls (unregisters m j)) = if n == m then is i j else 0
tells n i e = 0

abbrev pub told : ℕ → ℕ → ℕ → Output → ℕ
told c n i = total (λ o. if c == o.0 then tells n i o.1 else 0)

told-map :
    (c n i d : ℕ) (es : List Adapter.Event)
    → told c n i (map (λ e. (d, e)) es) ≡ (if c == d then total (tells n i) es else 0)
told-map c n i d [] = ground arith
told-map c n i d (e ∷ es) = ground (arith, told-map c n i d es)

apply_untold : (w : World) (c n i : ℕ) (e : Event) (st : Store) → told c n i (apply w e st).1 ≡ 0
unfolding apply Adapter.start Adapter.stop Adapter.reg_io Performing.perform_io wrap_holder
    send_data try_anew unsent
apply_untold w c n i (starts cli opt) st = ground arith
apply_untold w c n i (stops cli) st = ground arith
apply_untold w c n i (calls (performs cli d id handler)) st =
    ground (
      arith,
      told-map c n i cli (Performing.perform_io w.alive (w.wire cli) d id handler (st cli)).1,
    )
apply_untold w c n i (calls (registers cli id itf)) st =
    ground (arith, told-map c n i cli (Adapter.reg_io w.alive id itf (st cli)).1)
apply_untold w c n i (calls (unregisters cli id)) st = refl
apply_untold w c n i (calls (invokes f d)) st = refl

drive_untold :
    (w : World) (c n i : ℕ) (es : List Event) (st : Store) → told c n i (drive w es st).1 ≡ 0
unfolding drive
drive_untold w c n i [] st = refl
drive_untold w c n i (e ∷ es) st =
    let st' = (apply w e st).0 in
    omega (
      arith,
      total-append (λ o. if c == o.0 then tells n i o.1 else 0) (apply w e st).1 (drive w es st').1,
      apply_untold w c n i e st,
      drive_untold w c n i es st',
    )

destroy-tells :
    (alive : Alive) (n : ℕ) (a : Adapter.Adapter)
    → a.holder ≡ Holder.object n
    → alive n ≡ true
    → total (tells n a.id) (destroy alive a) ≡ 1
unfolding destroy
destroy-tells alive n a h there = ground (arith, h, there)

told-destroys :
    (w : World) (c n : ℕ) (st : Store) (cs : List ℕ)
    → (st c).holder ≡ Holder.object n
    → w.alive n ≡ true
    → told c n (st c).id (destroys w st cs) ≡ count c cs
unfolding destroys
told-destroys w c n st [] h there = refl
told-destroys w c n st (d ∷ cs) h there =
    let i = (st c).id in
    let es = destroy w.alive (st d) in
    ground (
      arith,
      total-append (λ o. if c == o.0 then tells n i o.1 else 0) (map (λ e. (d, e)) es)
          (destroys w st cs),
      told-map c n i d es,
      destroy-tells w.alive n (st c) h there,
      told-destroys w c n st cs h there,
    )

-- The objects of the sources are told when their client ends: after any history of calls other than
-- `free` of a map and its adapters that are new, an operation other than `free` stops a client as
-- often as the client, in its destructor, tells the object to which it points to unregister it, by
-- the client's own number, if that object is there. A client that stays, in the map or in a pool,
-- tells it nothing.
pub told_at_end :
    (opt : Config) (new_id : ℕ → ℕ) (keep_alive : Bool) (unset : Config)
    (before : List (World × Op)) (w : World) (op : Op) (c n : ℕ)
    → AllInternal before
    → IsInternal op
    → let s = run before (init new_id keep_alive unset opt) in
      let (t, os) = conclude w op s in
      (t.adapters c).holder ≡ Holder.object n
      → w.alive n ≡ true
      → told c n (t.adapters c).id os ≡ Ownership.stopped c (step op s.clients).1
unfolding conclude
told_at_end opt new_id keep_alive unset before w op c n inside k h there =
    let z = init new_id keep_alive unset opt in
    let s = run before z in
    let t = (operate w op s).0 in
    let cs = dropped s.clients t.clients in
    let i = (t.adapters c).id in
    let untold : told c n i (operate w op s).1 ≡ 0 =
      unfold operate in drive_untold w c n i (step op s.clients).1 s.adapters in
    let ended : count c cs ≡ Ownership.stopped c (step op s.clients).1 =
      unfold operate in stopped-dropped op c s.clients k (run-Inv before z inside (init-Inv opt)) in
    omega (
      arith,
      total-append (λ o. if c == o.0 then tells n i o.1 else 0) (operate w op s).1
          (destroys w t.adapters cs),
      untold,
      told-destroys w c n t.adapters cs h there,
      ended,
    )
