-- ===== src/Client/Map/Calling.antt =====
-- Which clients an operation of client_tcp_map.cpp calls, but for starting and stopping them.
use wfc_io.Prelude.{ℕ, ◌≤◌, ◌<◌, ◌≡◌, refl, List, map, [], ◌∷◌, ◌++◌, arith, total, total-append}
use wfc_io.Iface.{performs, registers}
use wfc_io.Prelude.Dict.{values}
use wfc_io.Client.Options.{Config}
use wfc_io.Client.Map.{
  ClientMap, Event, starts, stops, calls, Op, reconfigures, stopped, creates, regs, unregs, sends,
  frees, step, upsert, upsert_commit, create, create_client, reg_io, unreg_io, perform_io, release,
  stop, reconfigure_and_start, stop_all_clients, filled_startup, wrap_shutdown, take_startup,
  take_secondary, take_primary, make_client,
}
use wfc_io.Client.Map.Ownership.{Inv}
use wfc_io.Client.Map.History.{IsInternal, step-Grows, step-Inv}
use wfc_io.Client.Map.Registry.{find-upsert}
use wfc_io.Client.Map.Touching.{changes, find-below}

-- How often events call a client, but for starting and stopping it.
abbrev pub called : ℕ → Event → ℕ
called c (calls call) = changes c (calls call)
called c e = 0

called-map_stops : (c : ℕ) (xs : List ℕ) → total (called c) (map stops xs) ≡ 0
called-map_stops c [] = refl
called-map_stops c (x ∷ xs) = omega (arith, called-map_stops c xs)

called-map_starts :
    (c : ℕ) (opt : Config) (xs : List ℕ) → total (called c) (map (λ x. starts x opt) xs) ≡ 0
called-map_starts c opt [] = refl
called-map_starts c opt (x ∷ xs) = omega (arith, called-map_starts c opt xs)

pub reconfigure-called :
    (c : ℕ) (opt : Config) (s : ClientMap) → total (called c) (reconfigure_and_start opt s).1 ≡ 0
unfolding reconfigure_and_start stop_all_clients
reconfigure-called c opt s =
    let created = (filled_startup opt s).created in
    let opt' = wrap_shutdown opt in
    omega (
      arith,
      total-append (called c) (stop_all_clients s)
          (map {B = Event} (λ cli. starts cli opt') created),
      called-map_stops c (values s.clients ++ s.primary ++ s.secondary ++ s.startup),
      called-map_starts c opt' created,
    )

pub stop-called : (c : ℕ) (s : ClientMap) → total (called c) (stop s).1 ≡ 0
unfolding stop stop_all_clients
stop-called c s = called-map_stops c (values s.clients ++ s.primary ++ s.secondary ++ s.startup)

pub upsert-called : (c id : ℕ) (s : ClientMap) → total (called c) (upsert id s).2 ≡ 0
unfolding upsert upsert_commit create_client take_startup take_secondary take_primary make_client
upsert-called c id s = ground arith

-- How often events register an object.
abbrev pub registering : Event → ℕ
registering (calls (registers cli id itf)) = 1
registering e = 0

pub upsert-registering : (id : ℕ) (s : ClientMap) → total registering (upsert id s).2 ≡ 0
unfolding upsert upsert_commit create_client take_startup take_secondary take_primary make_client
upsert-registering id s = ground arith

pub creates-called : (c id : ℕ) (s : ClientMap) → total (called c) (step (creates id) s).1 ≡ 0
unfolding step create
creates-called c id s = upsert-called c id s

upsert-below : (id : ℕ) (s : ClientMap) → Inv s → (upsert id s).0 < (upsert id s).1.next
unfolding step create
upsert-below id s v =
    let t = (upsert id s).1 in
    ground (arith, find-upsert id id s v, find-below id t (step-Inv (creates id) s tt v))

-- No operation calls a client that is not made yet.
pub step-called :
    (op : Op) (c : ℕ) (s : ClientMap)
    → IsInternal op
    → Inv s
    → (step op s).0.next ≤ c
    → total (called c) (step op s).1 ≡ 0
unfolding step create reg_io unreg_io perform_io release
step-called (reconfigures opt) c s i v h = reconfigure-called c opt s
step-called stopped c s i v h = stop-called c s
step-called (creates j) c s i v h = upsert-called c j s
step-called (regs j holder) c s i v h = ground (
  arith,
  total-append (called c) (upsert j s).2 (calls (registers (upsert j s).0 j holder) ∷ []),
  upsert-called c j s,
  upsert-below j s v,
)
step-called (unregs j) c s i v h = ground (arith, find-below j s v)
step-called (sends d j handler) c s i v h = ground (
  arith,
  total-append (called c) (upsert j s).2 (calls (performs (upsert j s).0 d j handler) ∷ []),
  upsert-called c j s,
  upsert-below j s v,
  find-below j s v,
)
step-called (frees cli) c s i v h = absurd i

pub step-grows : (op : Op) (s : ClientMap) → IsInternal op → Inv s → s.next ≤ (step op s).0.next
step-grows op s i v = (step-Grows op s i v).grows
