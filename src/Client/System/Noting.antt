-- ===== src/Client/System/Noting.antt =====
-- client_tcp_map.cpp over the adapters: which operations change the source of an adapter.
use wfc_io.Prelude.{
  ℕ, ◌≡◌, refl, ◌∙◌, ◌⊎◌, Bool, List, [], ◌∷◌, ◌++◌, arith, ◌==◌, if◌then◌else◌, total,
}
use wfc_io.Iface.{DataPtr, WeakPtr, Handler, performs, registers, unregisters, invokes}
use wfc_io.Client.Map.{Event, starts, stops, calls}
use wfc_io.Client.Map.Calling.{called}
use wfc_io.Client.Adapter
use wfc_io.Client.Adapter.Performing.{Wire, wrap_holder, send_data}
use wfc_io.Client.Adapter.Performing as Performing
use wfc_io.Client.Adapter.Holders.{send_data-SameHolder}
use wfc_io.Client.System.{World, Store, apply, drive}
use wfc_io.Client.System.Isolation.{drive-append}

-- The source that an adapter is noted for, or 0.
abbrev pub noted : ℕ → Store → ℕ
noted c st = (st c).holder_id

apply-noted :
    (w : World) (e : Event) (c : ℕ) (st : Store)
    → called c e ≡ 0
    → noted c (apply w e st).0 ≡ noted c st
unfolding apply Adapter.start
apply-noted w (starts cli opt) c st h = ground arith
apply-noted w (stops cli) c st h = refl
apply-noted w (calls (performs cli d id handler)) c st h = ground arith
apply-noted w (calls (registers cli id itf)) c st h = ground arith
apply-noted w (calls (unregisters cli id)) c st h = ground arith
apply-noted w (calls (invokes f d)) c st h = refl

pub drive-noted :
    (w : World) (es : List Event) (c : ℕ) (st : Store)
    → total (called c) es ≡ 0
    → noted c (drive w es st).0 ≡ noted c st
unfolding drive
drive-noted w [] c st h = refl
drive-noted w (e ∷ es) c st h =
    drive-noted w es c (apply w e st).0 (omega arith) ∙ apply-noted w e c st (omega arith)

perform_io-noted :
    (w : World) (cli id : ℕ) (d : DataPtr) (handler : Handler) (a : Adapter.Adapter)
    → let b = (Performing.perform_io w.alive (w.wire cli) d id handler a).0 in
      (b.holder_id ≡ id) ⊎ (b.holder_id ≡ a.holder_id)
unfolding Performing.perform_io
perform_io-noted w cli id d handler a =
    let k = send_data-SameHolder (w.wire cli) d handler (wrap_holder w.alive id handler a).0 in
    unfold wrap_holder in ground (arith, k.holder_id)

-- What the calls at the end of a request note.
pub registers-noted :
    (w : World) (es : List Event) (cli id c : ℕ) (itf : WeakPtr) (st : Store)
    → ((j : ℕ) → total (called j) es ≡ 0)
    → noted c (drive w (es ++ calls (registers cli id itf) ∷ []) st).0
      ≡ (if c == cli then id else noted c st)
unfolding Adapter.reg_io
registers-noted w es cli id c itf st quiet =
    rw (drive-append w es (calls (registers cli id itf) ∷ []) st)
      (unfold drive in unfold apply in ground (arith, drive-noted w es c st (quiet c)))

pub performs-noted :
    (w : World) (es : List Event) (cli id c : ℕ) (d : DataPtr) (handler : Handler) (st : Store)
    → ((j : ℕ) → total (called j) es ≡ 0)
    → let now = noted c (drive w (es ++ calls (performs cli d id handler) ∷ []) st).0 in
      (now ≡ noted c st) ⊎ ((c ≡ cli) × (now ≡ id))
performs-noted w es cli id c d handler st quiet =
    let before = (drive w es st).0 in
    rw (drive-append w es (calls (performs cli d id handler) ∷ []) st) (
      unfold drive in
      unfold apply in
      ground
        (arith, drive-noted w es c st (quiet c), perform_io-noted w cli id d handler (before cli)))

-- What the leave of a source notes.
pub unregisters-noted :
    (w : World) (cli id c : ℕ) (stopping : Bool) (st : Store)
    → noted c
        (drive w (calls (unregisters cli id) ∷ (if stopping then [] else stops cli ∷ [])) st).0
      ≡ (if c == cli then (if noted cli st == id then 0 else noted cli st) else noted c st)
unfolding drive apply Adapter.unreg_io
unregisters-noted w cli id c stopping st = ground arith
