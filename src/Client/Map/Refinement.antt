-- ===== src/Client/Map/Refinement.antt =====
-- What a `client_tcp_map` of client_tcp_map.cpp promises to the sources, without its pools: an
-- assignment of clients to sources, and what each operation may make of it.
pub mod Steps
pub mod Keeping
use wfc_io.Prelude.{ℕ, ◌≡◌, ◌≢◌, ◌↔◌, ◌⊎◌, true, false, Bool, List, [], ◌∷◌}
use wfc_io.Client.Map.{
  ClientMap, Op, reconfigures, stopped, creates, regs, unregs, sends, frees, null, find, step,
}

-- Which client serves each source, null if none does, and whether requests are ignored.
pub record Service : Type 0 where
  pub assigned : ℕ → ℕ
  pub halted : Bool

abbrev pub view : ClientMap → Service
view s = record { assigned = λ id. find id s; halted = s.stop_flag }

-- No client serves two sources.
abbrev pub Exclusive : Service → Type 0
Exclusive a = (i j : ℕ) → a.assigned i ≢ null → a.assigned i ≡ a.assigned j → i ≡ j

pub record Same (a b : Service) : Type 0 where
  pub all : (j : ℕ) → b.assigned j ≡ a.assigned j
  pub flag : b.halted ≡ a.halted

-- The source has a client afterwards, the one that it had if it had one.
pub record Serves (id : ℕ) (a b : Service) : Type 0 where
  pub there : b.assigned id ≢ null
  pub keeps : a.assigned id ≢ null → b.assigned id ≡ a.assigned id
  pub others : (j : ℕ) → j ≢ id → b.assigned j ≡ a.assigned j
  pub flag : b.halted ≡ a.halted

-- The source has no client afterwards.
pub record Forgets (id : ℕ) (a b : Service) : Type 0 where
  pub gone : b.assigned id ≡ null
  pub others : (j : ℕ) → j ≢ id → b.assigned j ≡ a.assigned j
  pub flag : b.halted ≡ a.halted

-- The same sources are served, by clients that served nobody.
pub record Renews (a b : Service) : Type 0 where
  pub served : (j : ℕ) → (a.assigned j ≡ null) ↔ (b.assigned j ≡ null)
  pub fresh : (i j : ℕ) → b.assigned j ≢ null → a.assigned i ≢ b.assigned j
  pub flag : b.halted ≡ false

pub record Ends (b : Service) : Type 0 where
  pub nobody : (j : ℕ) → b.assigned j ≡ null
  pub flag : b.halted ≡ true

-- A request to a service that is stopped changes nothing.
abbrev pub Unless : Service → Type 0 → Type 0 → Type 0
Unless a Ignored Done = ((a.halted ≡ true) × Ignored) ⊎ ((a.halted ≡ false) × Done)

-- What an operation may do.
abbrev pub Allowed : Op → Service → Service → Type 0
Allowed (reconfigures opt) a b = Renews a b
Allowed stopped a b = Ends b
Allowed (creates id) a b = Serves id a b
Allowed (regs id holder) a b = Unless a (Same a b) (Serves id a b)
Allowed (unregs id) a b = Unless a (Same a b) (Forgets id a b)
Allowed (sends d id handler) a b = Unless a (Same a b) (Serves id a b)
Allowed (frees cli) a b = Same a b

-- The run of a history from one state of the map to another: each operation makes of the assignment
-- that the map then has what it may, and no client is shared at any time.
pub data Trace : List Op → ClientMap → ClientMap → Type 0 where
  ends : {s : ClientMap} → Trace [] s s
  goes :
      {op : Op} {ops : List Op} {s t : ClientMap}
      → Allowed op (view s) (view (step op s).0)
      → Exclusive (view (step op s).0)
      → Trace ops (step op s).0 t
      → Trace (op ∷ ops) s t
