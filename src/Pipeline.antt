-- ===== src/Pipeline.antt =====
-- Components of package/ behind one another: statistics.cpp, queue.cpp and broker.cpp, each the
-- target of the one before, as a configuration connects them. The proofs are in the module below.
--
-- The functions that a queue posts run at once, one after the other.
pub mod Passing
mod Tests
use mathlib.Core.List.{flat_map}
use wfc_io.Prelude.{ℕ, Bool, true, Option, none, some, List, [], ◌∷◌, ◌++◌, ◌==◌, if◌then◌else◌}
use wfc_io.Iface.{DataPtr, WeakPtr, Alive, Handler, Call, performs, Result, ok, fault}
use wfc_io.Statistics
use wfc_io.Queue
use wfc_io.Queue.Serving.{settled}
use wfc_io.Broker

-- The calls that are made, if each posted function runs.
abbrev pub statistics_calls : List Statistics.Event → List Call
statistics_calls [] = []
statistics_calls (Statistics.calls c ∷ es) = c ∷ statistics_calls es
statistics_calls (e ∷ es) = statistics_calls es

abbrev pub queue_calls : List Queue.Event → List Call
queue_calls [] = []
queue_calls (Queue.calls c ∷ es) = c ∷ queue_calls es
queue_calls (e ∷ es) = queue_calls es

abbrev pub broker_calls : List Broker.Event → List Call
broker_calls [] = []
broker_calls (Broker.calls c ∷ es) = c ∷ broker_calls es
broker_calls (e ∷ es) = broker_calls es

module _ (env : Broker.Env) where
  pub data Component : Type 0 where
    statistics : Statistics.Statistics → Component
    queue : Queue.Queue → Component
    broker : Broker.Broker env → Component

  -- A component, and the number of its object.
  pub record Stage : Type 0 where
    pub number : ℕ
    pub component : Component

  module _ (alive : Alive) (tracked : ℕ → Bool) where
    -- The calls that a message to a component comes to; a fault makes none.
    unfoldable pub carry : Component → DataPtr → ℕ → Handler → List Call
    carry (statistics s) d id h = statistics_calls (Statistics.perform_io alive d id h s).1
    carry (queue q) d id h = elim (Queue.perform_io alive d id h q) [
      | ok es ↦ queue_calls (settled true alive tracked q es)
      | fault f ↦ []
    ]
    carry (broker b) d id h = broker_calls (Broker.perform_io env alive d id h b)

    -- A call that is for the stage goes through it, and then through what comes next; any other
    -- leaves the chain.
    unfoldable pub enter : Stage → (Call → List Call) → Call → List Call
    unfolding carry
    enter x next (performs t d id h) =
        if t == x.number then flat_map next (carry x.component d id h) else performs t d id h ∷ []
    enter x next call = call ∷ []

    unfoldable pub through : List Stage → Call → List Call
    unfolding enter
    through [] call = call ∷ []
    through (x ∷ xs) call = enter x (through xs) call
