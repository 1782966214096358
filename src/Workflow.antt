-- ===== src/Workflow.antt =====
-- `wflow::workflow`, as far as the components of package/ use its timers: `create_timer` and
-- `release_timer`. The workflow is not in this repository; what is relied on is that a new timer
-- has an id that no timer had before, and that a released timer does not run.
use wfc_io.Prelude.{
  ℕ, suc, ◌≡◌, refl, ◌⊎◌, inr, Option, none, some, List, [], ◌∷◌, arith, ◌==◌, if◌then◌else◌,
}

pub record Timers : Type 0 where
  pub running : List ℕ
  pub next : ℕ

without : ℕ → List ℕ → List ℕ
without id [] = []
without id (n ∷ ns) = if n == id then without id ns else n ∷ without id ns

-- An id of -1 is none.
pub release : Option ℕ → Timers → Timers
unfolding without
release none t = t
release (some id) t = record t { running = without id t.running }

unfoldable pub create : Timers → ℕ × Timers
create t = (t.next, record { running = t.next ∷ t.running; next = suc t.next })

-- At most the timer of the given id runs.
abbrev pub Own : Option ℕ → Timers → Type 0
Own id t = (t.running ≡ []) ⊎ ((n : ℕ) × (id ≡ some n) × (t.running ≡ n ∷ []))

pub release-Own : (id : Option ℕ) (t : Timers) → Own id t → (release id t).running ≡ []
unfolding release without
release-Own id t own = ground arith

pub create-Own : (t : Timers) → t.running ≡ [] → Own (some (create t).0) (create t).1
unfolding create
create-Own t e = inr (t.next, refl, ground (arith, e))
