-- ===== src/Hub/Reaching.antt =====
-- The histories of a hub, as a relation: what its operations, and the domain object that suspends
-- it, can make of a new hub.
use wfc_io.Prelude.{ℕ, ◌+◌, ◌≡◌, Bool, false, some, List, arith, if◌then◌else◌, ◌++◌}
use wfc_io.Prelude.Dict.{erase, From, insert-From, erase-From}
use wfc_io.Iface.{WeakPtr, Alive, Handler, ok}
use wfc_io.Hub.{Hub, init, initialize, restart, reg_io, unreg_io, perform_io}
use wfc_io.Hub.Delivery.{
  messages, registrations, for_target, copies, target_copy, perform_io-delivered,
  messages-delivered,
}

pub data Step : Hub → Hub → Type 0 where
  initializes : (found : WeakPtr) (h : Hub) → Step h (initialize found h)
  restarts :
      (alive : Alive) (new_id object : ℕ) (h : Hub) → Step h (restart alive new_id object h).0
  registers : (io_id : ℕ) (itf : WeakPtr) (h : Hub) → Step h (reg_io io_id itf h)
  unregisters : (alive : Alive) (io_id : ℕ) (h : Hub) → Step h (unreg_io alive io_id h).0
  suspends : (suspended : Bool) (h : Hub) → Step h (record h { suspended = suspended })

pub data Reach (self id : ℕ) : Hub → Type 0 where
  new : Reach self id (init self id)
  later : {g h : Hub} → Reach self id g → Step g h → Reach self id h

Step-From : {g h : Hub} → Step g h → From 0 g.sources → From 0 h.sources
unfolding initialize restart reg_io unreg_io
Step-From (initializes found h) f = f
Step-From (restarts alive new_id object h) f = ground (arith, f)
Step-From (registers io_id itf h) f =
    ground (arith, f, insert-From io_id 0 itf h.sources (omega arith) f)
Step-From (unregisters alive io_id h) f = ground (arith, f, erase-From io_id 0 h.sources f)
Step-From (suspends suspended h) f = f

pub Reach-From : {self id : ℕ} {h : Hub} → Reach self id h → From 0 h.sources
unfolding init
Reach-From new = tt
Reach-From (later r s) = Step-From s (Reach-From r)

-- Whatever the history of a hub, if it is not suspended, a message with data comes to one copy of
-- the data for each registration, under a number other than the sender's, of an object that is
-- there, in the order of the numbers, under the identifier of the hub and with no handler to answer
-- it; and then, if the target is there and the sender is not the target's handler, to the data for
-- the target, under the identifier that it was given, with the handler of the message. So an object
-- that is there gets as many copies as it has registrations under numbers other than the sender's,
-- and one more if it is the target and the sender is not the target's handler; no object that is
-- gone gets a copy as a source.
pub reached_delivers :
    (self id : ℕ) (alive : Alive) (bytes : List ℕ) (io_id n : ℕ) (handler : Handler) (h : Hub)
    → Reach self id h
    → h.suspended ≡ false
    → let es =
        copies alive h.id bytes (erase io_id h.sources)
        ++ target_copy alive bytes io_id handler h in
      (perform_io alive (some bytes) io_id handler h ≡ ok es)
      × (messages n es
          ≡ (if alive n then registrations n (erase io_id h.sources) else 0)
            + for_target alive n io_id h)
reached_delivers self id alive bytes io_id n handler h r active = (
  perform_io-delivered alive bytes io_id handler h (Reach-From r) active,
  messages-delivered alive bytes io_id n handler h,
)
