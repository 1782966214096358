-- ===== src/Client/Adapter/Holders.antt =====
-- Who receives what comes in over a client_tcp_adapter.
use wfc_io.Prelude.{
  ℕ, ◌<◌, ◌≡◌, Bool, true, false, Option, none, some, List, [], ◌∷◌, ◌++◌, arith, if◌then◌else◌,
}
use wfc_io.Iface.{DataPtr, WeakPtr, Alive, Handler, empty, answering, performs, invokes, is_empty}
use wfc_io.Client.Options.{Config}
use wfc_io.Client.Adapter.{
  Adapter, Wrapper, Holder, wrapped, wrapper, calls, init, get_holder, receive, reg_io, unreg_io,
  start,
}
use wfc_io.Client.Adapter.Performing.{
  Wire, wrap_holder, send_data, perform_io, answer, try_anew, unsent,
}

-- What sending leaves as it was.
pub record SameHolder (a b : Adapter) : Type 0 where
  pub self : b.self ≡ a.self
  pub id : b.id ≡ a.id
  pub holder_id : b.holder_id ≡ a.holder_id
  pub holder : b.holder ≡ a.holder
  pub perform_holder : b.perform_holder ≡ a.perform_holder
  pub keep_alive : b.keep_alive ≡ a.keep_alive
  pub options : b.options ≡ a.options
  pub made : b.made ≡ a.made

pub send_data-SameHolder :
    (wire : Wire) (d : DataPtr) (h : Handler) (a : Adapter) → SameHolder a (send_data wire d h a).0
unfolding send_data try_anew unsent
send_data-SameHolder wire d h a = ground arith

receive-SameHolder :
    (alive : Alive) (d : DataPtr) (handler : Handler) (a b : Adapter)
    → SameHolder a b
    → receive alive d handler b ≡ receive alive d handler a
unfolding receive
receive-SameHolder alive d handler a b s =
    rw (s.keep_alive, s.id, s.self, s.holder, s.perform_holder)

receive-wrap_holder :
    (alive later : Alive) (wire : Wire) (d e : DataPtr) (handler h : Handler) (io_id : ℕ)
    (a : Adapter)
    → receive later d handler (perform_io alive wire e io_id h a).0
      ≡ receive later d handler (wrap_holder alive io_id h a).0
unfolding perform_io
receive-wrap_holder alive later wire d e handler h io_id a =
    receive-SameHolder later d handler _ _
      (send_data-SameHolder wire e h (wrap_holder alive io_id h a).0)

module _ (alive : Alive) (d : DataPtr) (handler : Handler) where
  -- Whoever was the holder before, after `reg_io` of an object that is there, what comes in goes to
  -- that object alone, under the adapter's number. Without keep-alive its own handler is first
  -- called with no data, which closes the connection, and the object answers through the adapter.
  pub receive-reg_io :
      (io_id n : ℕ) (a : Adapter)
      → alive n ≡ true
      → receive alive d handler (reg_io alive io_id (some n) a).0 ≡ (
          if a.keep_alive
          then calls (performs n d a.id handler) ∷ []
          else (if is_empty handler then [] else calls (invokes handler none) ∷ [])
            ++ calls (performs n d a.id (answering a.self)) ∷ [])
  unfolding receive reg_io
  receive-reg_io io_id n a there = ground arith

  -- A source that did not register is answered through the handler of its message: if there is no
  -- holder, then after `perform_io` with a handler all that comes in over a kept connection goes to
  -- that handler, whatever objects are still there.
  pub receive-perform_io :
      (later : Alive) (wire : Wire) (e : DataPtr) (io_id : ℕ) (h : Handler) (a : Adapter)
      → get_holder alive a ≡ none
      → is_empty h ≡ false
      → a.keep_alive ≡ true
      → receive later d handler (perform_io alive wire e io_id h a).0 ≡ calls (invokes h d) ∷ []
  receive-perform_io later wire e io_id h a missing real kept =
      rw (receive-wrap_holder alive later wire d e handler h io_id a)
        (unfold receive wrap_holder in ground arith)

  -- An answer to a source that has left makes the adapter call an empty function: after `unreg_io`
  -- of the source that is registered, the closure that answers over another connection installs a
  -- wrapper of no handler, which receives all that comes in from then on.
  pub answer_after_unreg_io :
      (later : Alive) (wire : Wire) (e : DataPtr) (a : Adapter)
      → a.keep_alive ≡ true
      → receive later d handler (answer alive wire e (unreg_io a.holder_id a)).0
        ≡ calls (invokes empty d) ∷ []
  answer_after_unreg_io later wire e a kept =
      unfold answer in
      rw
        (receive-wrap_holder alive later wire d e handler empty (unreg_io a.holder_id a).holder_id
          (unreg_io a.holder_id a))
        (unfold receive wrap_holder unreg_io in ground arith)

-- The operations that change the holder.
pub data Op : Type 0 where
  starts : Bool → Config → Op
  regs : Alive → ℕ → WeakPtr → Op
  unregs : ℕ → Op
  sends : Alive → Wire → DataPtr → ℕ → Handler → Op
  answers : Alive → Wire → DataPtr → Op

unfoldable pub step : Op → Adapter → Adapter
step (starts throws opt) a = (start throws opt a).0
step (regs alive io_id itf) a = (reg_io alive io_id itf a).0
step (unregs io_id) a = unreg_io io_id a
step (sends alive wire d io_id h) a = (perform_io alive wire d io_id h a).0
step (answers alive wire d) a = (answer alive wire d a).0

unfoldable pub run : List Op → Adapter → Adapter
unfolding step
run [] a = a
run (op ∷ ops) a = run ops (step op a)

-- The wrapper that the adapter owns is the one that its holder points to.
abbrev Owns : Holder → Option Wrapper → ℕ → Type 0
Owns holder none made = Unit {0}
Owns holder (some w) made = (holder ≡ wrapped w.serial) × (w.serial < made)

abbrev pub OwnsWrapper : Adapter → Type 0
OwnsWrapper a = Owns a.holder a.perform_holder a.made

perform_io-OwnsWrapper :
    (alive : Alive) (wire : Wire) (d : DataPtr) (io_id : ℕ) (h : Handler) (a : Adapter)
    → OwnsWrapper a
    → OwnsWrapper (perform_io alive wire d io_id h a).0
unfolding perform_io
perform_io-OwnsWrapper alive wire d io_id h a o =
    let s = send_data-SameHolder wire d h (wrap_holder alive io_id h a).0 in
    rw (s.holder, s.perform_holder, s.made) (unfold wrap_holder in ground arith)

step-OwnsWrapper : (op : Op) (a : Adapter) → OwnsWrapper a → OwnsWrapper (step op a)
unfolding step start reg_io unreg_io answer
step-OwnsWrapper (starts throws opt) a o = o
step-OwnsWrapper (regs alive io_id itf) a o = tt
step-OwnsWrapper (unregs io_id) a o = ground arith
step-OwnsWrapper (sends alive wire d io_id h) a o = perform_io-OwnsWrapper alive wire d io_id h a o
step-OwnsWrapper (answers alive wire d) a o =
    perform_io-OwnsWrapper alive wire d a.holder_id empty a o

run_from-OwnsWrapper : (ops : List Op) (a : Adapter) → OwnsWrapper a → OwnsWrapper (run ops a)
unfolding run
run_from-OwnsWrapper [] a o = o
run_from-OwnsWrapper (op ∷ ops) a o = run_from-OwnsWrapper ops (step op a) (step-OwnsWrapper op a o)

get_holder_owned :
    (alive : Alive) (a : Adapter) (w : Wrapper)
    → OwnsWrapper a
    → a.perform_holder ≡ some w
    → get_holder alive a ≡ some (wrapper w.handler)
unfolding get_holder
get_holder_owned alive a w o e = ground arith

-- In any history of a new adapter, a wrapper that it owns is its holder, so that what comes in goes
-- to the handler of that wrapper, whichever objects are there.
pub get_holder-run :
    (alive : Alive) (self id : ℕ) (keep_alive : Bool) (opt : Config) (ops : List Op) (w : Wrapper)
    → (run ops (init self id keep_alive opt)).perform_holder ≡ some w
    → get_holder alive (run ops (init self id keep_alive opt)) ≡ some (wrapper w.handler)
get_holder-run alive self id keep_alive opt ops w owned =
    get_holder_owned alive _ w
      (run_from-OwnsWrapper ops (init self id keep_alive opt) (unfold init in tt)) owned
