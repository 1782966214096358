-- ===== src/Hub/Leaving.antt =====
-- Sources that leave an io-hub.
use wfc_io.Prelude.{ℕ, suc, ◌+◌, ◌≤◌, ◌≡◌, refl, ◌≢◌, true, false, some, List, [], ◌∷◌, arith}
use wfc_io.Prelude.Dict.{Dict, lookup, erase, From, erase-From, lookup-erase}
use wfc_io.Iface.{WeakPtr, Alive, Handler, ok}
use wfc_io.Hub.{Hub, Event, perform_io, unreg_io}
use wfc_io.Hub.Delivery.{messages, registrations, is_object, perform_io_lem}

registrations-erase :
    (n k l : ℕ) (itf : WeakPtr) (m : Dict WeakPtr)
    → From l m
    → lookup k m ≡ some itf
    → registrations n (erase k m) + is_object n itf ≡ registrations n m
unfolding lookup erase
registrations-erase n k l itf [] f e = cc
registrations-erase n k l itf ((j, w) ∷ m) f e =
    ground (arith, registrations-erase n k (suc j) itf m f.1)

registrations-erase-le :
    (n k : ℕ) (m : Dict WeakPtr) → registrations n (erase k m) ≤ registrations n m
unfolding erase
registrations-erase-le n k [] = omega arith
registrations-erase-le n k ((j, w) ∷ m) = ground (arith, registrations-erase-le n k m)

-- A source that leaves a hub that is not suspended hears nothing more: if its object was registered
-- under that number alone, and is not the target, no later message reaches the object.
pub unreg_io_silences :
    (alive : Alive) (bytes : List ℕ) (id sender n : ℕ) (handler : Handler) (h : Hub)
    → From 0 h.sources
    → h.suspended ≡ false
    → lookup id h.sources ≡ some (some n)
    → registrations n h.sources ≡ 1
    → h.target ≢ some n
    → let left = (unreg_io alive id h).0 in
      (es : List Event) × (perform_io alive (some bytes) sender handler left ≡ ok es)
      × (messages n es ≡ 0)
unfolding unreg_io
unreg_io_silences alive bytes id sender n handler h f active found once other =
    let left = record h { sources = erase id h.sources } in
    let (es, e, c) =
      perform_io_lem alive bytes sender n handler left (erase-From id 0 h.sources f) active in
    (
      es,
      ground (arith, e),
      ground (
        arith,
        c,
        registrations-erase n id 0 (some n) h.sources f found,
        registrations-erase-le n sender (erase id h.sources),
      ),
    )

-- A source that leaves while the hub is suspended stays registered: once the hub is active again, a
-- message from another source reaches its object, if that is still there.
pub left_while_suspended :
    (alive : Alive) (bytes : List ℕ) (id sender n : ℕ) (handler : Handler) (h : Hub)
    → From 0 h.sources
    → h.suspended ≡ true
    → lookup id h.sources ≡ some (some n)
    → id ≢ sender
    → alive n ≡ true
    → let resumed = record (unreg_io alive id h).0 { suspended = false } in
      (es : List Event) × (perform_io alive (some bytes) sender handler resumed ≡ ok es)
      × (1 ≤ messages n es)
unfolding unreg_io
left_while_suspended alive bytes id sender n handler h f idle found other there =
    let resumed = record h { suspended = false } in
    let (es, e, c) = perform_io_lem alive bytes sender n handler resumed f refl in
    (
      es,
      rw idle e,
      ground (
        arith,
        c,
        there,
        registrations-erase n id 0 (some n) (erase sender h.sources)
            (erase-From sender 0 h.sources f),
        lookup-erase sender id 0 h.sources f,
      ),
    )
