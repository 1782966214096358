-- ===== src/Statistics/Passing.antt =====
-- What an io-statistics passes on, and what it writes to its meters.
use wfc_io.Prelude.{
  ℕ, ◌≡◌, refl, Bool, true, false, none, some, List, [], ◌∷◌, ◌++◌, arith, if◌then◌else◌, total,
  length,
}
use wfc_io.Iface.{
  DataPtr, Alive, lock, Handler, empty, external, measured, is_empty, performs, invokes, ok, fault,
  empty_function,
}
use wfc_io.Statistics.{
  Statistics, Event, set_write_size, calls, measures, write_size, measure, perform_io, call_handler,
}

-- What of the events is for other objects.
abbrev is_passed : Event → Bool
is_passed (calls c) = true
is_passed _ = false

abbrev pub passed : List Event → List Event
passed [] = []
passed (e ∷ es) = if is_passed e then e ∷ passed es else passed es

-- The sizes that are measured: those of the messages, and those of the answers.
abbrev pub read_size : Event → ℕ
read_size (measures m count read write) = read
read_size _ = 0

abbrev pub written_size : Event → ℕ
written_size (write_size m size) = size
written_size _ = 0

abbrev pub size : DataPtr → ℕ
size none = 0
size (some bytes) = length bytes

-- A component between others that nobody notices: whatever its state, if the target is there it
-- gets the message once and unchanged, under its identifier, and when it answers, the function that
-- the sender gave is called once, with the answer unchanged. If the component is not suspended, has
-- statistics and the message has data, the meters get the size of the message and that of the
-- answer; otherwise they get nothing.
pub transparent :
    (alive : Alive) (d reply : DataPtr) (io_id n t : ℕ) (s : Statistics)
    → lock alive s.target ≡ some t
    → let es = (perform_io alive d io_id (external n) s).1 in
      let measuring = if s.suspended then false else if s.has_statistics then true else false in
      (handler : Handler) × (fs : List Event) × (passed es
        ≡ calls (performs t d io_id handler) ∷ [])
      × (call_handler handler reply ≡ ok fs)
      × (passed fs ≡ calls (invokes (external n) reply) ∷ [])
      × (total read_size es ≡ (if measuring then size d else 0))
      × (total written_size fs
          ≡ (elim d [ none ↦ 0 | some bytes ↦ if measuring then size reply else 0 ]))
unfolding perform_io measure call_handler
transparent alive none reply io_id n t s there = (
  external n,
  calls (invokes (external n) reply) ∷ [],
  ground arith,
  refl,
  refl,
  ground arith,
  refl,
)
transparent alive (some bytes) reply io_id n t s there =
    let plain = calls (invokes (external n) reply) ∷ [] in
    let m = measured s.next_meter (external n) in
    (
      (if s.suspended then external n else if s.has_statistics then m else external n),
      (if s.suspended
          then plain
          else if s.has_statistics
          then set_write_size s.next_meter reply ++ plain
          else plain),
      ground arith,
      ground arith,
      ground arith,
      ground arith,
      ground arith,
    )

-- The handler that measures is not empty when the one of the sender is: a message with data and an
-- empty handler, to a component that is not suspended and has statistics and whose target is there,
-- reaches the target with a handler that does not look empty and whose call ends in the fault of an
-- empty function, whatever the answer. The same component passes the empty handler on when it is
-- suspended.
pub wraps_empty :
    (alive : Alive) (bytes : List ℕ) (reply : DataPtr) (io_id t : ℕ) (s : Statistics)
    → s.has_statistics ≡ true
    → lock alive s.target ≡ some t
    → (handler : Handler) × (passed
          (perform_io alive (some bytes) io_id empty (record s { suspended = false })).1
        ≡ calls (performs t (some bytes) io_id handler) ∷ [])
      × (is_empty handler ≡ false)
      × (call_handler handler reply ≡ fault empty_function)
      × (passed (perform_io alive (some bytes) io_id empty (record s { suspended = true })).1
          ≡ calls (performs t (some bytes) io_id empty) ∷ [])
unfolding perform_io measure call_handler
wraps_empty alive bytes reply io_id t s has there =
    (measured s.next_meter empty, ground arith, refl, refl, ground arith)
