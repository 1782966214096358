-- ===== src/Client/Map/Race/Stopping.antt =====
-- `reg_io` of client_tcp_map.cpp tests the flag of `stop` under no lock. A call may have passed the
-- test when another thread stops the map.
use wfc_io.Prelude.{ℕ, ◌≡◌, ◌≢◌, true, List, [], ◌∷◌, ◌++◌, arith, ◌==◌, if◌then◌else◌}
use wfc_io.Prelude.Dict.{lookup, insert, emplace}
use wfc_io.Iface.{WeakPtr, registers}
use wfc_io.Client.Map.{
  ClientMap, Event, calls, null, create_client, take_startup, take_secondary, take_primary,
  make_client, upsert, upsert_commit, unreg_io, stop, find,
}
use wfc_io.Client.Map.Ownership.{Inv, started, stopped}

-- `reg_io` after its test of the flag.
pub reg_late : ℕ → WeakPtr → ClientMap → ClientMap × List Event
unfolding upsert
reg_late id holder s =
    let (cli, t, es) = upsert id s in
    if cli == null then (t, es) else (t, es ++ calls (registers cli id holder) ∷ [])

-- A race: if `stop` runs when a call of `reg_io` has passed its test of the flag, the call makes a
-- client, which is started and not stopped, though the map is stopped, and the source cannot give
-- it back: its leave is ignored.
pub stop_race :
    (id : ℕ) (holder : WeakPtr) (s : ClientMap)
    → Inv s
    → let (t, es) = reg_late id holder (stop s).0 in
      (find id t ≡ s.next)
      × (find id t ≢ null)
      × (started s.next es ≡ 1)
      × (stopped s.next es ≡ 0)
      × (t.stop_flag ≡ true)
      × (unreg_io id t ≡ (t, []))
unfolding reg_late upsert upsert_commit create_client take_startup take_secondary take_primary
    make_client stop unreg_io find emplace insert lookup
stop_race id holder s v = (
  ground (arith, v.positive),
  ground (arith, v.positive),
  ground (arith, v.positive),
  ground (arith, v.positive),
  ground (arith, v.positive),
  ground (arith, v.positive),
)
