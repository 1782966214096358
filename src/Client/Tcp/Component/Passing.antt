-- ===== src/Client/Tcp/Component/Passing.antt =====
-- When client_tcp.cpp passes a request on to its map, and when it does not.
use wfc_io.Prelude.{ℕ, ◌≡◌, true, false, none, some, List, [], ◌∷◌, map, arith, if◌then◌else◌}
use wfc_io.Prelude.Dict.{insert, erase}
use wfc_io.Iface.{DataPtr, WeakPtr, Handler, is_empty}
use wfc_io.Client.Map.{ClientMap, Op, step}
use wfc_io.Client.Map
use wfc_io.Client.Tcp.{ClientTcp, Event, client, invokes, reg_io, unreg_io, perform_io}

-- The component after an operation of its map.
abbrev pub passed : Op → ClientTcp → ClientMap → ClientTcp × List Event
passed op c m = (record c { client_map = some (step op m).0 }, map client (step op m).1)

module _ (id : ℕ) (c : ClientTcp) (m : ClientMap) (has : c.client_map ≡ some m) where
  pub reg_io-passed :
      (itf : WeakPtr)
      → c.suspended ≡ false
      → c.client_started ≡ true
      → reg_io id itf c ≡ passed (Map.regs id itf) c m
  unfolding reg_io step
  reg_io-passed itf active on = ground (arith, has)

  pub reg_io_waits :
      (itf : WeakPtr)
      → c.suspended ≡ false
      → c.client_started ≡ false
      → reg_io id itf c ≡ (record c { wait_list = insert id itf c.wait_list }, [])
  unfolding reg_io
  reg_io_waits itf active off = ground (arith, has)

  pub reg_io_ignored : (itf : WeakPtr) → c.suspended ≡ true → reg_io id itf c ≡ (c, [])
  unfolding reg_io
  reg_io_ignored itf suspended = ground (arith, has)

  pub unreg_io-passed : c.client_started ≡ true → unreg_io id c ≡ passed (Map.unregs id) c m
  unfolding unreg_io step
  unreg_io-passed on = ground (arith, has)

  pub unreg_io_waits :
      c.client_started ≡ false → unreg_io id c ≡ (record c { wait_list = erase id c.wait_list }, [])
  unfolding unreg_io
  unreg_io_waits off = ground (arith, has)

  pub perform_io-passed :
      (d : DataPtr) (handler : Handler)
      → c.suspended ≡ false
      → perform_io d id handler c ≡ passed (Map.sends d id handler) c m
  unfolding perform_io step
  perform_io-passed d handler active = ground (arith, has)

  pub perform_io_refused :
      (d : DataPtr) (handler : Handler)
      → c.suspended ≡ true
      → perform_io d id handler c ≡ (c, if is_empty handler then [] else invokes handler none ∷ [])
  unfolding perform_io
  perform_io_refused d handler suspended = ground (arith, has)
