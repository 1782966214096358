-- ===== src/Client/Tcp/Leaving.antt =====
-- What becomes of a waiting source that leaves after a client_tcp object has started.
use wfc_io.Prelude.{ℕ, ◌≡◌, some, List, arith, false}
use wfc_io.Prelude.Dict.{lookup}
use wfc_io.Iface.{WeakPtr, ok}
use wfc_io.Client.Map.{ClientMap, null, calls, unregs, stopped, regs, reconfigures, step}
use wfc_io.Client.Map
use wfc_io.Client.Map.Ownership.{Inv}
use wfc_io.Client.Map.History.{step-Inv}
use wfc_io.Client.Tcp.{ClientTcp, Event, stop, unreg_io, restart}
use wfc_io.Client.Tcp.Waiting.{Ready, Running, Serves, restart-Started, waiting_served}

map-unreg_io-Inv : (id : ℕ) (m : ClientMap) → Inv m → Inv (Map.unreg_io id m).0
unfolding step
map-unreg_io-Inv id m v = step-Inv (unregs id) m tt v

map-stop-Inv : (m : ClientMap) → Inv m → Inv (Map.stop m).0
unfolding step
map-stop-Inv m v = step-Inv stopped m tt v

-- What is left of an object that is running when a source leaves it and it stops.
leave-Ready :
    (id : ℕ) (c : ClientTcp) (m : ClientMap)
    → Running c m
    → let left = (stop (unreg_io id c).0).0 in
      Ready left (Map.stop (Map.unreg_io id m).0).0
      × (left.client_started ≡ false)
      × (left.wait_list ≡ c.wait_list)
unfolding stop unreg_io
leave-Ready id c m r = (
  record {
    has_map = ground arith;
    active = ground arith;
    inv = map-stop-Inv (Map.unreg_io id m).0 (map-unreg_io-Inv id m r.ready.inv);
  },
  ground arith,
  ground arith,
)

-- The wait list is not emptied: if a source waits for an object that has its map, is not suspended
-- and has not started, and after the start the source leaves and the object is stopped, then the
-- next start gives the source, which has left, a client again.
pub left_source_returns :
    (id : ℕ) (itf : WeakPtr) (c : ClientTcp) (m : ClientMap)
    → Ready c m
    → c.client_started ≡ false
    → lookup id c.wait_list ≡ some itf
    → (d : ClientTcp) × (es : List Event) × (restart c ≡ ok (d, es))
      × (e : ClientTcp) × (fs : List Event) × (restart (stop (unreg_io id d).0).0 ≡ ok (e, fs))
      × Serves id e
left_source_returns id itf c m r w waits =
    let (d, es, first, s) = restart-Started c m r w in
    let (ready, stopped_again, same) = leave-Ready id d s.map_after s.running in
    let (e, fs, second, serves) =
      waiting_served id itf (stop (unreg_io id d).0).0 _ ready stopped_again
        (rw (same, s.same) waits) in
    (d, es, first, e, fs, second, serves)
