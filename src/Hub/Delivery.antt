-- ===== src/Hub/Delivery.antt =====
-- Whom a message of an io-hub reaches.
use wfc_io.Prelude.{
  ℕ, suc, ◌+◌, ◌≡◌, refl, ◌≢◌, true, false, none, some, List, [], ◌∷◌, ◌++◌, arith, is, ◌==◌,
  if◌then◌else◌, total, total-append,
}
use wfc_io.Prelude.Dict.{Dict, lookup, erase, From, erase-below}
use wfc_io.Iface.{WeakPtr, Alive, lock, Handler, empty, performs, ok, fault, null_pointer}
use wfc_io.Hub.{Hub, Event, calls, copy_to, broadcast, to_target, perform_io}

-- How often a list of events sends a message to an object.
abbrev pub is_message : ℕ → Event → ℕ
is_message n (calls (performs m d id handler)) = is n m
is_message n _ = 0

abbrev pub messages : ℕ → List Event → ℕ
messages n = total (is_message n)

-- Under how many numbers an object is registered.
abbrev pub is_object : ℕ → WeakPtr → ℕ
is_object n none = 0
is_object n (some m) = is n m

abbrev pub registrations : ℕ → Dict WeakPtr → ℕ
registrations n [] = 0
registrations n ((k, itf) ∷ m) = is_object n itf + registrations n m

-- One copy of a message for each registration of an object that is there, in the order of their
-- numbers, sent by a hub with an identifier and not to be answered.
abbrev pub copies : Alive → ℕ → List ℕ → Dict WeakPtr → List Event
copies alive id bytes [] = []
copies alive id bytes ((k, itf) ∷ m) = elim (lock alive itf) [
  | none ↦ copies alive id bytes m
  | some n ↦ calls (performs n (some bytes) id empty) ∷ copies alive id bytes m
]

messages-copies :
    (alive : Alive) (id n : ℕ) (bytes : List ℕ) (m : Dict WeakPtr)
    → messages n (copies alive id bytes m) ≡ (if alive n then registrations n m else 0)
messages-copies alive id n bytes [] = ground arith
messages-copies alive id n bytes ((k, none) ∷ m) =
    ground (arith, messages-copies alive id n bytes m)
messages-copies alive id n bytes ((k, some o) ∷ m) =
    ground (arith, messages-copies alive id n bytes m)

broadcast-copies :
    (alive : Alive) (id io_id l : ℕ) (bytes : List ℕ) (m : Dict WeakPtr)
    → From l m
    → broadcast alive id (some bytes) io_id m ≡ ok (copies alive id bytes (erase io_id m))
unfolding broadcast erase copy_to
broadcast-copies alive id io_id l bytes [] f = refl
broadcast-copies alive id io_id l bytes ((k, none) ∷ m) f =
    ground (arith, broadcast-copies alive id io_id (suc k) bytes m f.1, erase-below io_id (suc k) m)
broadcast-copies alive id io_id l bytes ((k, some o) ∷ m) f =
    let e = broadcast-copies alive id io_id (suc k) bytes m f.1 in
    ground (arith, e, erase-below io_id (suc k) m)

-- Whether the target is the object and the message does not come from it.
abbrev pub for_target : Alive → ℕ → ℕ → Hub → ℕ
for_target alive n io_id h = elim (lock alive h.target) [
  | none ↦ 0
  | some t ↦ if h.handler_id == io_id then 0 else is n t
]

-- The message for the target, which is to answer through the handler of the message, unless it
-- comes from the target.
abbrev pub target_copy : Alive → List ℕ → ℕ → Handler → Hub → List Event
target_copy alive bytes io_id handler h = elim (lock alive h.target) [
  | none ↦ []
  | some t ↦
      if io_id == h.handler_id
      then []
      else calls (performs t (some bytes) h.handler_id handler) ∷ []
]

to_target-copy :
    (alive : Alive) (io_id : ℕ) (bytes : List ℕ) (handler : Handler) (h : Hub)
    → to_target alive (some bytes) io_id handler h ≡ target_copy alive bytes io_id handler h
unfolding to_target
to_target-copy alive io_id bytes handler h = ground arith

messages-target_copy :
    (alive : Alive) (n io_id : ℕ) (bytes : List ℕ) (handler : Handler) (h : Hub)
    → messages n (target_copy alive bytes io_id handler h) ≡ for_target alive n io_id h
messages-target_copy alive n io_id bytes handler h = ground arith

-- All that a message comes to.
abbrev pub delivered : Alive → List ℕ → ℕ → Handler → Hub → List Event
delivered alive bytes io_id handler h =
    copies alive h.id bytes (erase io_id h.sources) ++ target_copy alive bytes io_id handler h

pub perform_io-delivered :
    (alive : Alive) (bytes : List ℕ) (io_id : ℕ) (handler : Handler) (h : Hub)
    → From 0 h.sources
    → h.suspended ≡ false
    → perform_io alive (some bytes) io_id handler h ≡ ok (delivered alive bytes io_id handler h)
unfolding perform_io
perform_io-delivered alive bytes io_id handler h f active = rw active (
    rw
      (
        broadcast-copies alive h.id io_id 0 bytes h.sources f,
        to_target-copy alive io_id bytes handler h,
      )
      refl)

pub messages-delivered :
    (alive : Alive) (bytes : List ℕ) (io_id n : ℕ) (handler : Handler) (h : Hub)
    → messages n (delivered alive bytes io_id handler h)
      ≡ (if alive n then registrations n (erase io_id h.sources) else 0)
        + for_target alive n io_id h
messages-delivered alive bytes io_id n handler h =
    let es = copies alive h.id bytes (erase io_id h.sources) in
    omega (
      arith,
      total-append (is_message n) es (target_copy alive bytes io_id handler h),
      messages-copies alive h.id n bytes (erase io_id h.sources),
      messages-target_copy alive n io_id bytes handler h,
    )

-- A message with data, to a hub that is not suspended and whose sources are in the order of their
-- keys, returns. An object that is there gets as many copies as it has registrations under numbers
-- other than the sender's, and one more if it is the target and the sender is not the target's
-- handler; no object that is gone gets any.
pub perform_io_lem :
    (alive : Alive) (bytes : List ℕ) (io_id n : ℕ) (handler : Handler) (h : Hub)
    → From 0 h.sources
    → h.suspended ≡ false
    → (es : List Event) × (perform_io alive (some bytes) io_id handler h ≡ ok es)
      × (messages n es
          ≡ (if alive n then registrations n (erase io_id h.sources) else 0)
            + for_target alive n io_id h)
perform_io_lem alive bytes io_id n handler h f active = (
  delivered alive bytes io_id handler h,
  perform_io-delivered alive bytes io_id handler h f active,
  messages-delivered alive bytes io_id n handler h,
)

broadcast_null :
    (alive : Alive) (id io_id k n : ℕ) (m : Dict WeakPtr)
    → lookup k m ≡ some (some n)
    → k ≢ io_id
    → alive n ≡ true
    → broadcast alive id none io_id m ≡ fault null_pointer
unfolding broadcast lookup copy_to
broadcast_null alive id io_id k n [] found other there = cc
broadcast_null alive id io_id k n ((j, itf) ∷ m) found other there =
    ground (arith, broadcast_null alive id io_id k n m)

-- The hub reads through the message: a message with no data to a hub that is not suspended fails on
-- the null pointer as soon as an object that is there is registered under another number than the
-- sender's, where other components pass it on.
pub perform_io_null :
    (alive : Alive) (io_id k n : ℕ) (handler : Handler) (h : Hub)
    → h.suspended ≡ false
    → lookup k h.sources ≡ some (some n)
    → k ≢ io_id
    → alive n ≡ true
    → perform_io alive none io_id handler h ≡ fault null_pointer
unfolding perform_io
perform_io_null alive io_id k n handler h active found other there =
    rw active (rw (broadcast_null alive h.id io_id k n h.sources found other there))
