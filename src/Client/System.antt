-- ===== src/Client/System.antt =====
-- package/client/client_tcp/client_tcp_map.cpp over client_tcp_adapter.cpp: the map of clients with
-- the adapters that its events drive. The proofs are in the modules below.
--
-- A client of the map is the adapter of that number. It stays in the store when the map has let it
-- go; its end is in Lifetime.
pub mod Isolation
pub mod Serving
pub mod Losing
pub mod Binding
pub mod Noting
pub mod Sources
pub mod Fatal
pub mod Lifetime
mod Tests
use wfc_io.Prelude.{ℕ, Bool, Option, List, [], ◌∷◌, ◌++◌, map, ◌==◌, if◌then◌else◌}
use wfc_io.Iface.{Alive, Call, performs, registers, unregisters, invokes}
use wfc_io.Client.Options.{Config}
use wfc_io.Client.Map.{ClientMap, Event, starts, stops, calls, Op, step}
use wfc_io.Client.Map
use wfc_io.Client.Adapter
use wfc_io.Client.Adapter.Performing.{Wire, perform_io}

-- What is around the adapters while an operation runs: the objects that are there, and what the TCP
-- clients do.
pub record World : Type 0 where
  pub alive : Alive
  pub wire : ℕ → Wire
  pub throws : ℕ → Bool

abbrev pub Store : Type 0
Store = ℕ → Adapter.Adapter

abbrev pub set : ℕ → Adapter.Adapter → Store → Store
set cli a st = λ c. if c == cli then a else st c

abbrev pub Output : Type 0
Output = List (ℕ × Adapter.Event)

abbrev from_client : ℕ → List Adapter.Event → Output
from_client cli = map (λ e. (cli, e))

-- What one event of the map does to the adapters.
unfoldable pub apply : World → Event → Store → Store × Output
apply w (starts cli opt) st =
    let (a, es) = Adapter.start (w.throws cli) opt (st cli) in (set cli a st, from_client cli es)
apply w (stops cli) st = (st, from_client cli (Adapter.stop (st cli)))
apply w (calls (performs cli d id handler)) st =
    let (a, es) = perform_io w.alive (w.wire cli) d id handler (st cli) in
    (set cli a st, from_client cli es)
apply w (calls (registers cli id itf)) st =
    let (a, es) = Adapter.reg_io w.alive id itf (st cli) in (set cli a st, from_client cli es)
apply w (calls (unregisters cli id)) st = (set cli (Adapter.unreg_io id (st cli)) st, [])
apply w (calls (invokes h d)) st = (st, [])

unfoldable pub drive : World → List Event → Store → Store × Output
unfolding apply
drive w [] st = (st, [])
drive w (e ∷ es) st =
    let (st', os) = apply w e st in let (st'', os') = drive w es st' in (st'', os ++ os')

pub record System : Type 0 where
  pub clients : ClientMap
  pub adapters : Store

-- The adapters as their constructor makes them; `new_id` is what it creates, and the last two
-- arguments what it leaves unset.
abbrev pub init : (ℕ → ℕ) → Bool → Config → Config → System
init new_id keep_alive unset opt = record {
  clients = Map.init opt;
  adapters = λ cli. Adapter.init cli (new_id cli) keep_alive unset;
}

-- An operation of the map, with what it does to the adapters.
unfoldable pub operate : World → Op → System → System × Output
unfolding drive
operate w op s =
    let (m, es) = step op s.clients in
    let (st, os) = drive w es s.adapters in (record { clients = m; adapters = st }, os)

-- Operations, each in its own world.
unfoldable pub run : List (World × Op) → System → System
unfolding operate
run [] s = s
run ((w, op) ∷ ops) s = run ops (operate w op s).0
