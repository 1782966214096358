-- ===== src/Client/Tcp/Component.antt =====
-- package/client/client_tcp/client_tcp.cpp over client_tcp_map.cpp and client_tcp_adapter.cpp: the
-- component `client-tcp` as a whole, under any history of its operations. The proofs are in the
-- modules below.
--
-- Suspension and options are the domain object's, which may change them between two operations.
pub mod Passing
pub mod Reaching
pub mod Staying
pub mod Waiting
pub mod Lasting
pub mod Renewing
pub mod Serving
pub mod Starting
pub mod Beginning
mod Tests
use wfc_io.Prelude.{ℕ, Bool, List, [], ◌∷◌}
use wfc_io.Iface.{DataPtr, WeakPtr, Handler, Result, ok, ◌>>=◌}
use wfc_io.Client.Options.{Config}
use wfc_io.Client.System.{World, Store, Output, drive}
use wfc_io.Client.Tcp.{ClientTcp, Event, start, restart, stop, reg_io, unreg_io, perform_io}
use wfc_io.Client.Tcp.Driving.{map_events}

pub record Component : Type 0 where
  pub tcp : ClientTcp
  pub adapters : Store

pub data Request : Type 0 where
  -- New options, and whether the object is suspended from now on.
  configures : Config → Bool → Request
  starts restarts stops : Request
  regs : ℕ → WeakPtr → Request
  unregs : ℕ → Request
  sends : DataPtr → ℕ → Handler → Request

unfoldable pub handle : Request → ClientTcp → Result (ClientTcp × List Event)
handle (configures opt suspended) c = ok (record c { options = opt; suspended = suspended }, [])
handle starts c = start c
handle restarts c = restart c
handle stops c = ok (stop c)
handle (regs id itf) c = ok (reg_io id itf c)
handle (unregs id) c = ok (unreg_io id c)
handle (sends d id handler) c = ok (perform_io d id handler c)

-- A request, with what the events that it causes do to the adapters.
unfoldable pub serve : World → Request → Component → Result (Component × Output)
unfolding handle drive
serve w r c = do
  (tcp, es) ← handle r c.tcp
  let (st, os) = drive w (map_events es) c.adapters
  ok (record { tcp = tcp; adapters = st }, os)

-- Requests, each in its own world.
unfoldable pub run : List (World × Request) → Component → Result Component
unfolding serve
run [] c = ok c
run ((w, r) ∷ rs) c = do (d, os) ← serve w r c; run rs d
