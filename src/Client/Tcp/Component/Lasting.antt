-- ===== src/Client/Tcp/Component/Lasting.antt =====
-- What no operation of the component `client-tcp` breaks.
use wfc_io.Prelude.{
  ℕ, ◌≡◌, refl, inl, inr, Bool, true, false, some, [], ◌∷◌, arith, ◌∙◌, Bool-cases,
}
use wfc_io.Prelude.Dict.{Dict, From, insert-From, erase-From}
use wfc_io.Iface.{DataPtr, WeakPtr, Handler}
use wfc_io.Client.Options.{Config}
use wfc_io.Client.Map.{ClientMap, Op, stopped, step}
use wfc_io.Client.Map
use wfc_io.Client.Map.Ownership.{Inv}
use wfc_io.Client.Map.History.{IsInternal, step-Inv}
use wfc_io.Client.Map.Restart.{IsRequest}
use wfc_io.Client.Map.Refinement.Steps.{step-Allowed}
use wfc_io.Client.Tcp.{ClientTcp, reg_io, unreg_io, perform_io, stop, reg_waiting}
use wfc_io.Client.Tcp.Component.Passing.{
  passed, reg_io-passed, reg_io_waits, reg_io_ignored, unreg_io-passed, unreg_io_waits,
  perform_io-passed, perform_io_refused,
}

-- The component has its map, which is open while the component has started, and the sources that
-- wait are in order.
pub record Sound (c : ClientTcp) (m : ClientMap) : Type 0 where
  pub has_map : c.client_map ≡ some m
  pub inv : Inv m
  pub open_map : c.client_started ≡ true → m.stop_flag ≡ false
  pub ordered : From 0 c.wait_list

abbrev pub IsSound : ClientTcp → Type 0
IsSound c = (m : ClientMap) × Sound c m

request-stop_flag :
    (op : Op) (m : ClientMap) → IsRequest op → Inv m → (step op m).0.stop_flag ≡ m.stop_flag
request-stop_flag (Map.regs id itf) m r v = elim (step-Allowed (Map.regs id itf) m tt v) [
  | inl (h, s) ↦ s.flag
  | inr (h, s) ↦ s.flag
]
request-stop_flag (Map.unregs id) m r v = elim (step-Allowed (Map.unregs id) m tt v) [
  | inl (h, s) ↦ s.flag
  | inr (h, s) ↦ s.flag
]
request-stop_flag (Map.sends d id h) m r v = elim (step-Allowed (Map.sends d id h) m tt v) [
  | inl (k, s) ↦ s.flag
  | inr (k, s) ↦ s.flag
]
request-stop_flag _ m r v = absurd r

request-IsInternal : (op : Op) → IsRequest op → IsInternal op
request-IsInternal (Map.regs id itf) r = tt
request-IsInternal (Map.unregs id) r = tt
request-IsInternal (Map.sends d id h) r = tt
request-IsInternal _ r = absurd r

-- A request that the component passes on to its map.
pub passed-Sound :
    (op : Op) (c : ClientTcp) (m : ClientMap)
    → IsRequest op
    → Sound c m
    → Sound (passed op c m).0 (step op m).0
passed-Sound op c m r s = record {
  has_map = refl;
  inv = step-Inv op m (request-IsInternal op r) s.inv;
  open_map = λ on. request-stop_flag op m r s.inv ∙ s.open_map on;
  ordered = s.ordered;
}

pub configured-Sound :
    (opt : Config) (suspended : Bool) (c : ClientTcp) (m : ClientMap)
    → Sound c m
    → Sound (record c { options = opt; suspended = suspended }) m
configured-Sound opt suspended c m s = record {
  has_map = s.has_map;
  inv = s.inv;
  open_map = s.open_map;
  ordered = s.ordered;
}

-- A new wait list, in order.
pub waits-Sound :
    (ws : Dict WeakPtr) (c : ClientTcp) (m : ClientMap)
    → From 0 ws
    → Sound c m
    → Sound (record c { wait_list = ws }) m
waits-Sound ws c m f s = record {
  has_map = s.has_map;
  inv = s.inv;
  open_map = s.open_map;
  ordered = f;
}

pub reg_io-IsSound :
    (id : ℕ) (itf : WeakPtr) (c : ClientTcp) → IsSound c → IsSound (reg_io id itf c).0
reg_io-IsSound id itf c (m, s) = elim (Bool-cases c.suspended) [
  | inl off ↦ rw (reg_io_ignored id c m s.has_map itf off) (m, s)
  | inr active ↦ elim (Bool-cases c.client_started) [
    | inl on ↦
        rw (reg_io-passed id c m s.has_map itf active on)
          ((step (Map.regs id itf) m).0, passed-Sound (Map.regs id itf) c m tt s)
    | inr waits ↦
        rw (reg_io_waits id c m s.has_map itf active waits)
          (m, waits-Sound _ c m (insert-From id 0 itf c.wait_list (omega arith) s.ordered) s)
  ]
]

pub unreg_io-IsSound : (id : ℕ) (c : ClientTcp) → IsSound c → IsSound (unreg_io id c).0
unreg_io-IsSound id c (m, s) = elim (Bool-cases c.client_started) [
  | inl on ↦
      rw (unreg_io-passed id c m s.has_map on)
        ((step (Map.unregs id) m).0, passed-Sound (Map.unregs id) c m tt s)
  | inr waits ↦
      rw (unreg_io_waits id c m s.has_map waits)
        (m, waits-Sound _ c m (erase-From id 0 c.wait_list s.ordered) s)
]

pub perform_io-IsSound :
    (d : DataPtr) (id : ℕ) (handler : Handler) (c : ClientTcp)
    → IsSound c
    → IsSound (perform_io d id handler c).0
perform_io-IsSound d id handler c (m, s) = elim (Bool-cases c.suspended) [
  | inl off ↦ rw (perform_io_refused id c m s.has_map d handler off) (m, s)
  | inr active ↦
      rw (perform_io-passed id c m s.has_map d handler active)
        ((step (Map.sends d id handler) m).0, passed-Sound (Map.sends d id handler) c m tt s)
]

pub stop-IsSound : (c : ClientTcp) → IsSound c → IsSound (stop c).0
unfolding stop step
stop-IsSound c (m, s) = (
  (Map.stop m).0,
  record {
    has_map = ground (arith, s.has_map);
    inv = step-Inv stopped m tt s.inv;
    open_map = λ on. ground (arith, s.has_map);
    ordered = ground (arith, s.ordered, s.has_map);
  },
)

pub reg_waiting-IsSound :
    (ws : Dict WeakPtr) (c : ClientTcp) → IsSound c → IsSound (reg_waiting ws c).0
unfolding reg_waiting
reg_waiting-IsSound [] c s = s
reg_waiting-IsSound ((id, itf) ∷ ws) c s =
    reg_waiting-IsSound ws (reg_io id itf c).0 (reg_io-IsSound id itf c s)
