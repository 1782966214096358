-- ===== src/Client/Map.antt =====
-- package/client/client_tcp/client_tcp_map.{hpp,cpp}: the clients of a `client-tcp` object, one for
-- each source, with the pools from which they come. The proofs are in the modules below.
--
-- A client is the number of its adapter, in the order of creation; 0 is the null pointer. Calls of
-- the adapters are the events that an operation returns, in their order.
pub mod Fill
pub mod Ownership
pub mod Create
pub mod Steps
pub mod History
pub mod Pools
pub mod Registry
pub mod Restart
pub mod Race
pub mod Refinement
pub mod Touching
pub mod Calling
pub mod Counting
pub mod Owning
pub mod Dropping
mod Tests
use mathlib.Core.List.{foldl}
use wfc_io.Prelude.{
  ℕ, zero, suc, ◌+◌, Bool, true, false, not, Option, none, some, List, [], ◌∷◌, ◌++◌, map, length,
  ltb, ◌==◌, if◌then◌else◌,
}
use wfc_io.Prelude.Dict.{Dict, values, lookup, emplace, erase}
use wfc_io.Iface.{DataPtr, WeakPtr, Handler, Call, performs, registers, unregisters}
use wfc_io.Stat.{ConnectionStat}
use wfc_io.Client.Options.{Config, guarded}
use Fill.{Filled, fill, renew}

abbrev pub null : ℕ
null = 0

pub data Event : Type 0 where
  starts : ℕ → Config → Event
  stops : ℕ → Event
  calls : Call → Event

pub record ClientMap : Type 0 where
  pub opt : Config
  pub clients : Dict ℕ
  pub startup : List ℕ
  pub primary : List ℕ
  pub secondary : List ℕ
  pub startup_flag : Bool
  pub stop_flag : Bool
  -- The number of the next adapter that is made.
  pub next : ℕ

-- The constructor.
pub init : Config → ClientMap
init c = record {
  opt = c;
  clients = [];
  startup = [];
  primary = [];
  secondary = [];
  startup_flag = true;
  stop_flag = false;
  next = 1;
}

pub stop_all_clients : ClientMap → List Event
stop_all_clients s = map stops (values s.clients ++ s.primary ++ s.secondary ++ s.startup)

abbrev pub wrap_shutdown : Config → Config
wrap_shutdown opt = record opt { shutdown_handler = guarded opt.shutdown_handler }

-- The clients that are made anew for the sources, and the filled pools.
pub renewed : ClientMap → Filled
renewed s = record {
  pool = [];
  created = values (renew s.next s.clients);
  next = s.next + length s.clients;
}

pub filled_primary : Config → ClientMap → Filled
unfolding renewed
filled_primary opt s = fill opt.primary_pool opt.primary_pool (renewed s)

pub filled_startup : Config → ClientMap → Filled
unfolding filled_primary
filled_startup opt s =
    let start = record (filled_primary opt s) { pool = [] } in
    if s.startup_flag then fill opt.startup_pool opt.startup_pool start else start

pub reconfigure_and_start : Config → ClientMap → ClientMap × List Event
unfolding filled_primary filled_startup stop_all_clients
reconfigure_and_start opt s = (
  record {
    opt = wrap_shutdown opt;
    clients = renew s.next s.clients;
    startup = (filled_startup opt s).pool;
    primary = (filled_primary opt s).pool;
    secondary = [];
    startup_flag = false;
    stop_flag = false;
    next = (filled_startup opt s).next;
  },
  stop_all_clients s ++ map (λ cli. starts cli (wrap_shutdown opt)) (filled_startup opt s).created,
)

pub stop : ClientMap → ClientMap × List Event
unfolding stop_all_clients
stop s = (
  record s { stop_flag = true; clients = []; primary = []; secondary = []; startup = [] },
  stop_all_clients s,
)

pub find : ℕ → ClientMap → ℕ
find id s = elim (lookup id s.clients) [ none ↦ null | some cli ↦ cli ]

make_client : ClientMap → ℕ × ClientMap × List Event
make_client s = (s.next, record s { next = suc s.next }, starts s.next s.opt ∷ [])

take_primary : List ℕ → ClientMap → ℕ × ClientMap × List Event
unfolding make_client
take_primary [] s = make_client s
take_primary (cli ∷ rest) s =
    (cli, record s { primary = rest ++ s.next ∷ []; next = suc s.next }, starts s.next s.opt ∷ [])

take_secondary : List ℕ → ClientMap → ℕ × ClientMap × List Event
unfolding take_primary
take_secondary [] s = take_primary s.primary s
take_secondary (cli ∷ rest) s = (cli, record s { secondary = rest }, [])

take_startup : List ℕ → ClientMap → ℕ × ClientMap × List Event
unfolding take_secondary
take_startup [] s = take_secondary s.secondary s
take_startup (cli ∷ rest) s = (cli, record s { startup = rest }, [])

-- `create_`: from the startup pool, else the secondary, else the primary, else a new client.
pub create_client : ClientMap → ℕ × ClientMap × List Event
unfolding take_startup
create_client s = take_startup s.startup s

-- The second critical section of `upsert_`.
pub upsert_commit : ℕ → ClientMap → ℕ × ClientMap × List Event
unfolding create_client
upsert_commit id s =
    let (cli, s', es) = create_client s in
    (cli, record s' { clients = emplace id cli s'.clients }, es)

pub upsert : ℕ → ClientMap → ℕ × ClientMap × List Event
unfolding find upsert_commit
upsert id s = if find id s == null then upsert_commit id s else (find id s, s, [])

pub create : ℕ → ClientMap → ℕ × ClientMap × List Event
unfolding upsert
create id s = upsert id s

pub reg_io : ℕ → WeakPtr → ClientMap → ClientMap × List Event
unfolding upsert
reg_io id holder s =
    if s.stop_flag
    then (s, [])
    else let (cli, s', es) = upsert id s in
      if cli == null then (s', es) else (s', es ++ calls (registers cli id holder) ∷ [])

release : ℕ → ℕ → ClientMap → ClientMap × List Event
release cli id s =
    let erased = record s { clients = erase id s.clients } in
    if ltb (length s.secondary) s.opt.secondary_pool
    then (record erased { secondary = s.secondary ++ cli ∷ [] }, calls (unregisters cli id) ∷ [])
    else (erased, calls (unregisters cli id) ∷ stops cli ∷ [])

pub unreg_io : ℕ → ClientMap → ClientMap × List Event
unfolding find release
unreg_io id s =
    if s.stop_flag then (s, []) else if find id s == null then (s, []) else release (find id s) id s

pub perform_io : DataPtr → ℕ → Handler → ClientMap → ClientMap × List Event
unfolding find create
perform_io d id handler s =
    if s.stop_flag
    then (s, [])
    else let (cli, s', es) = if find id s == null then create id s else (find id s, s, []) in
      (s', es ++ calls (performs cli d id handler) ∷ [])

-- A full pool stops the client, unless the pointer is null; a pool with room takes what it is
-- given.
pub free : ℕ → ClientMap → ClientMap × List Event
free cli s =
    if ltb (length s.secondary) s.opt.secondary_pool
    then (record s { secondary = s.secondary ++ cli ∷ [] }, [])
    else if cli == null
    then (s, [])
    else (s, stops cli ∷ [])

-- `plus`: the operator `+=` of the library; `empty_stat`: what its constructor makes; `stat_of`:
-- what a client counts.
pub get_stat :
    (ConnectionStat → ConnectionStat → ConnectionStat)
    → ConnectionStat
    → (ℕ → ConnectionStat)
    → ClientMap
    → ConnectionStat
get_stat plus empty_stat stat_of s =
    foldl (λ stat cli. plus stat (stat_of cli)) (record empty_stat { connection_count = 0 })
      (values s.clients)

-- The public operations, as one step of a history.
pub data Op : Type 0 where
  reconfigures : Config → Op
  stopped : Op
  creates : ℕ → Op
  regs : ℕ → WeakPtr → Op
  unregs : ℕ → Op
  sends : DataPtr → ℕ → Handler → Op
  frees : ℕ → Op

unfoldable pub step : Op → ClientMap → ClientMap × List Event
step (reconfigures opt) s = reconfigure_and_start opt s
step stopped s = stop s
step (creates id) s = let (cli, s', es) = create id s in (s', es)
step (regs id holder) s = reg_io id holder s
step (unregs id) s = unreg_io id s
step (sends d id handler) s = perform_io d id handler s
step (frees cli) s = free cli s

pub run : List Op → ClientMap → ClientMap × List Event
unfolding step
run [] s = (s, [])
run (op ∷ ops) s = let (s', es) = step op s in let (s'', es') = run ops s' in (s'', es ++ es')
