-- ===== src/Client/Tcp/Waiting.antt =====
-- The sources that register before a client_tcp object has started.
use wfc_io.Prelude.{
  ℕ, ◌≡◌, refl, ◌∙◌, ◌≢◌, ◌⊎◌, inl, inr, true, some, List, [], ◌∷◌, ◌++◌, map, arith, ◌==◌,
  Bool-cases, ap, false, if◌then◌else◌,
}
use wfc_io.Prelude.Dict.{Dict, lookup, insert, lookup-insert}
use wfc_io.Iface.{WeakPtr, ok}
use wfc_io.Client.Options.{Config}
use wfc_io.Client.Map.{ClientMap, null, calls, unregs, stopped, regs, reconfigures, step}
use wfc_io.Client.Map
use wfc_io.Client.Map.Ownership.{Inv}
use wfc_io.Client.Map.History.{step-Inv}
use wfc_io.Client.Map.Registry.{reg_io_lem}
use wfc_io.Client.Map.Restart.{reconfigure-stop_flag}
use wfc_io.Client.Tcp.{
  ClientTcp, Event, client, reg_io, reg_waiting, start_waiting, start_meters, configure_map,
  reconfigure_and_start, restart, client_options,
}

-- An object that has its map and is not suspended.
pub record Ready (c : ClientTcp) (m : ClientMap) : Type 0 where
  pub has_map : c.client_map ≡ some m
  pub active : c.suspended ≡ false
  pub inv : Inv m

-- The same after a start.
pub record Running (c : ClientTcp) (m : ClientMap) : Type 0 where
  pub ready : Ready c m
  pub started : c.client_started ≡ true
  pub open_map : m.stop_flag ≡ false

map-reg_io-Inv : (id : ℕ) (itf : WeakPtr) (m : ClientMap) → Inv m → Inv (Map.reg_io id itf m).0
unfolding step
map-reg_io-Inv id itf m v = step-Inv (regs id itf) m tt v

pub reg_io-Running :
    (id : ℕ) (itf : WeakPtr) (c : ClientTcp) (m : ClientMap)
    → Running c m
    → Running (reg_io id itf c).0 (Map.reg_io id itf m).0
unfolding reg_io
reg_io-Running id itf c m r = record {
  ready = record {
    has_map = rw r.ready.has_map (rw (r.ready.active, r.started));
    active = ground arith;
    inv = map-reg_io-Inv id itf m r.ready.inv;
  };
  started = ground arith;
  open_map = (reg_io_lem id id itf m r.ready.inv r.open_map).3;
}

-- The source that registers has a client afterwards, and so has every other one that had one.
reg_io_serves :
    (id j : ℕ) (itf : WeakPtr) (c : ClientTcp) (m : ClientMap)
    → Running c m
    → ((id == j) ≡ true) ⊎ (Map.find j m ≢ null)
    → Map.find j (Map.reg_io id itf m).0 ≢ null
reg_io_serves id j itf c m r (inl here) e =
    let l = reg_io_lem id j itf m r.ready.inv r.open_map in l.0 (ground (arith, l))
reg_io_serves id j itf c m r (inr had) e =
    let l = reg_io_lem id j itf m r.ready.inv r.open_map in
    elim (Bool-cases (id == j)) [
      | inl here ↦ l.0 (ground (arith, l))
      | inr other ↦ had (ground (arith, l))
    ]

reg_io-wait_list :
    (id : ℕ) (itf : WeakPtr) (c : ClientTcp) (m : ClientMap)
    → Running c m
    → (reg_io id itf c).0.wait_list ≡ c.wait_list
unfolding reg_io
reg_io-wait_list id itf c m r = ground arith

reg_waiting-Running :
    (ws : Dict WeakPtr) (c : ClientTcp) (m : ClientMap)
    → Running c m
    → (n : ClientMap) × Running (reg_waiting ws c).0 n
      × ((id : ℕ) → Map.find id m ≢ null → Map.find id n ≢ null)
      × ((id : ℕ) (itf : WeakPtr) → lookup id ws ≡ some itf → Map.find id n ≢ null)
      × ((reg_waiting ws c).0.wait_list ≡ c.wait_list)
unfolding reg_waiting lookup
reg_waiting-Running [] c m r = (m, r, λ id h. h, λ id itf h e. cc, refl)
reg_waiting-Running ((id, itf) ∷ ws) c m r =
    let m' = (Map.reg_io id itf m).0 in
    let (n, rn, keeps, serves, same) =
      reg_waiting-Running ws (reg_io id itf c).0 m' (reg_io-Running id itf c m r) in
    (
      n,
      rn,
      λ j had. keeps j (reg_io_serves id j itf c m r (inr had)),
      λ j w there. elim (Bool-cases (id == j)) [
        | inl here ↦ keeps j (reg_io_serves id j itf c m r (inl here))
        | inr other ↦ serves j w (rw other at there)
      ],
      same ∙ reg_io-wait_list id itf c m r,
    )

abbrev pub Serves : ℕ → ClientTcp → Type 0
Serves id c = (m : ClientMap) × (c.client_map ≡ some m) × (Map.find id m ≢ null)

-- What a start of a waiting object comes to.
pub record Started (c d : ClientTcp) : Type 0 where
  pub map_after : ClientMap
  pub running : Running d map_after
  pub served :
      (id : ℕ) (itf : WeakPtr) → lookup id c.wait_list ≡ some itf → Map.find id map_after ≢ null
  pub same : d.wait_list ≡ c.wait_list

pub map-reconfigure-Inv :
    (opt : Config) (m : ClientMap) → Inv m → Inv (Map.reconfigure_and_start opt m).0
unfolding step
map-reconfigure-Inv opt m v = step-Inv (reconfigures opt) m tt v

start_meters-Started : (c d : ClientTcp) → Started c d → Started c (start_meters d).0
unfolding start_meters
start_meters-Started c d s = record {
  map_after = s.map_after;
  running = ground (arith, s.running);
  served = s.served;
  same = ground (arith, s.same);
}

start_waiting-Started :
    (c d : ClientTcp) (m : ClientMap)
    → Ready d m
    → m.stop_flag ≡ false
    → d.client_started ≡ false
    → d.wait_list ≡ c.wait_list
    → Started c (start_waiting d).0
unfolding start_waiting
start_waiting-Started c d m r o w e =
    let d' = record d { client_started = true } in
    let running : Running d' m = record {
      ready = record { has_map = r.has_map; active = r.active; inv = r.inv };
      started = refl;
      open_map = o;
    } in
    let (n, rn, keeps, serves, same) = reg_waiting-Running d.wait_list d' m running in
    rw w (record {
      map_after = n;
      running = rn;
      served = λ id itf h. serves id itf (rw (← e) at h);
      same = same ∙ e;
    })

pub restart-Started :
    (c : ClientTcp) (m : ClientMap)
    → Ready c m
    → c.client_started ≡ false
    → (d : ClientTcp) × (es : List Event) × (restart c ≡ ok (d, es)) × Started c d
unfolding restart reconfigure_and_start configure_map
restart-Started c m r w =
    let (m1, es1) = Map.reconfigure_and_start (client_options c.options) m in
    let c1 = record c { client_map = some m1 } in
    let (c2, es2) = start_waiting c1 in
    let (c3, es3) = start_meters c2 in
    let ready : Ready c1 m1 = record {
      has_map = refl;
      active = r.active;
      inv = map-reconfigure-Inv (client_options c.options) m r.inv;
    } in
    (
      c3,
      map client es1 ++ es2 ++ es3,
      rw (r.has_map, configure_map),
      start_meters-Started c c2 (
          start_waiting-Started c c1 m1 ready (reconfigure-stop_flag (client_options c.options) m) w
            refl),
    )

-- A start of an object that waits returns, and every source of the wait list has a client
-- afterwards.
pub waiting_served :
    (id : ℕ) (itf : WeakPtr) (c : ClientTcp) (m : ClientMap)
    → Ready c m
    → c.client_started ≡ false
    → lookup id c.wait_list ≡ some itf
    → (d : ClientTcp) × (es : List Event) × (restart c ≡ ok (d, es)) × Serves id d
waiting_served id itf c m r w waits =
    let (d, es, e, s) = restart-Started c m r w in
    (d, es, e, (s.map_after, s.running.ready.has_map, s.served id itf waits))

pub reg_io-waits :
    (id : ℕ) (itf : WeakPtr) (c : ClientTcp) (m : ClientMap)
    → Ready c m
    → c.client_started ≡ false
    → (reg_io id itf c).0 ≡ record c { wait_list = insert id itf c.wait_list }
unfolding reg_io
reg_io-waits id itf c m r w = ground (arith, r.has_map, r.active)

-- Registration before the start is not lost: if a source registers with an object that has its
-- map, is not suspended and has not started, and on which a source waits already, then the start
-- returns, the new source has a client afterwards, and so has the one that waited.
pub registered_served :
    (id other : ℕ) (itf itf2 : WeakPtr) (c : ClientTcp) (m : ClientMap)
    → Ready c m
    → c.client_started ≡ false
    → lookup other c.wait_list ≡ some itf2
    → (d : ClientTcp) × (es : List Event) × (restart (reg_io id itf c).0 ≡ ok (d, es))
      × Serves id d
      × Serves other d
registered_served id other itf itf2 c m r w before =
    let kept = reg_io-waits id itf c m r w in
    let c1 = record c { wait_list = insert id itf c.wait_list } in
    let r1 : Ready c1 m = record { has_map = r.has_map; active = r.active; inv = r.inv } in
    let (d, es, e, s) = restart-Started c1 m r1 w in
    let present : lookup id c1.wait_list ≡ some itf =
      ground (arith, lookup-insert id id itf c.wait_list) in
    let still : lookup other c1.wait_list ≡ some (if id == other then itf else itf2) =
      ground (arith, lookup-insert id other itf c.wait_list, before) in
    (
      d,
      es,
      ap restart kept ∙ e,
      (s.map_after, s.running.ready.has_map, s.served id itf present),
      (s.map_after, s.running.ready.has_map, s.served other _ still),
    )
