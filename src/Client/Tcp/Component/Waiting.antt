-- ===== src/Client/Tcp/Component/Waiting.antt =====
-- A source that waits for the start of the component `client-tcp`.
use mathlib.Core.Path.{subst}
use wfc_io.Prelude.{
  ℕ, ◌≡◌, refl, sym, ap, ◌∙◌, inl, inr, false, some, List, [], ◌∷◌, arith, Bool-cases,
}
use wfc_io.Prelude.Dict.{
  Dict, From, lookup, insert, erase, lookup-insert, lookup-erase, insert-From, erase-From,
}
use wfc_io.Iface.{WeakPtr, ok}
use wfc_io.Client.Map.{ClientMap, Op, step, find, null}
use wfc_io.Client.Map
use wfc_io.Client.Map.Ownership.{Inv}
use wfc_io.Client.Map.Restart.{IsRequest}
use wfc_io.Client.System.{World, drive, operate}
use wfc_io.Client.Tcp.{ClientTcp}
use wfc_io.Client.Tcp.Driving.{map_events}
use wfc_io.Client.Tcp.Waiting.{Ready, restart-Started}
use wfc_io.Client.Tcp.Receiving.{waiting-Bound}
use wfc_io.Client.Tcp.Component.{
  Component, Request, configures, restarts, regs, unregs, sends, handle, serve,
}
use wfc_io.Client.Tcp.Component.Reaching.{Answers, Reaches, reaches_now, answers_then}
use wfc_io.Client.Tcp.Component.Passing.{
  passed, reg_io_waits, reg_io_ignored, unreg_io_waits, perform_io-passed, perform_io_refused,
}
use wfc_io.Client.Tcp.Component.Lasting.{Sound, configured-Sound, passed-Sound, waits-Sound}
use wfc_io.Client.Tcp.Component.Serving.{
  Serves, Spares, serve-passed, serve_aside, AllSpare, quiet_refusal,
}

-- A source that waits for the start, with its object.
pub record Waits (id n : ℕ) (c : Component) : Type 0 where
  pub map_now : ClientMap
  pub sound : Sound c.tcp map_now
  pub idle : c.tcp.client_started ≡ false
  pub found : lookup id c.tcp.wait_list ≡ some (some n)

-- A request that the component passes on to its map, or not, leaves the wait list.
passed-Waiting :
    (w : World) (r : Request) (op : Op) (id n : ℕ) (c : Component) (s : Waits id n c)
    → IsRequest op
    → handle r c.tcp ≡ ok (passed op c.tcp s.map_now)
    → Answers w r c (Waits id n)
unfolding operate
passed-Waiting w r op id n c s q e = (
  _,
  _,
  serve-passed w r op c s.map_now e,
  record {
    map_now = (step op s.map_now).0;
    sound = passed-Sound op c.tcp s.map_now q s.sound;
    idle = s.idle;
    found = s.found;
  },
)

-- The wait list changes, but not for the source.
listed-Waiting :
    (w : World) (r : Request) (id n : ℕ) (ws : Dict WeakPtr) (c : Component)
    → Waits id n c
    → From 0 ws
    → lookup id ws ≡ some (some n)
    → handle r c.tcp ≡ ok (record c.tcp { wait_list = ws }, [])
    → Answers w r c (Waits id n)
listed-Waiting w r id n ws c s f found e = (
  _,
  [],
  serve_aside w r c _ [] e refl,
  record {
    map_now = s.map_now;
    sound = waits-Sound ws c.tcp s.map_now f s.sound;
    idle = s.idle;
    found = found;
  },
)

serve-Waiting :
    (w : World) (r : Request) (id n : ℕ) (c : Component)
    → Waits id n c
    → Spares id n w r
    → Answers w r c (Waits id n)
unfolding handle
serve-Waiting w (configures opt suspended) id n c s k = (
  _,
  [],
  serve_aside w (configures opt suspended) c _ [] refl refl,
  record {
    map_now = s.map_now;
    sound = configured-Sound opt suspended c.tcp s.map_now s.sound;
    idle = s.idle;
    found = s.found;
  },
)
serve-Waiting w (regs j itf) id n c s k = elim (Bool-cases c.tcp.suspended) [
  | inl off ↦ (
    c,
    [],
    serve_aside w (regs j itf) c c.tcp []
        (ap ok (reg_io_ignored j c.tcp s.map_now s.sound.has_map itf off)) refl,
    s,
  )
  | inr active ↦
      listed-Waiting w (regs j itf) id n (insert j itf c.tcp.wait_list) c s
        (insert-From j 0 itf c.tcp.wait_list (omega arith) s.sound.ordered)
        (ground (arith, lookup-insert j id itf c.tcp.wait_list, s.found))
        (ap ok (reg_io_waits j c.tcp s.map_now s.sound.has_map itf active s.idle))
]
serve-Waiting w (unregs j) id n c s k =
    listed-Waiting w (unregs j) id n (erase j c.tcp.wait_list) c s
      (erase-From j 0 c.tcp.wait_list s.sound.ordered)
      (ground (arith, lookup-erase j id 0 c.tcp.wait_list s.sound.ordered, s.found))
      (ap ok (unreg_io_waits j c.tcp s.map_now s.sound.has_map s.idle))
serve-Waiting w (sends d j handler) id n c s k = elim (Bool-cases c.tcp.suspended) [
  | inl off ↦ (
    c,
    [],
    serve_aside w (sends d j handler) c c.tcp _
        (ap ok (perform_io_refused j c.tcp s.map_now s.sound.has_map d handler off))
        (quiet_refusal handler),
    s,
  )
  | inr active ↦
      passed-Waiting w (sends d j handler) (Map.sends d j handler) id n c s tt
        (ap ok (perform_io-passed j c.tcp s.map_now s.sound.has_map d handler active))
]
serve-Waiting w _ id n c s k = absurd k

pub run-Waits :
    (rs : List (World × Request)) (id n : ℕ) (c : Component)
    → Waits id n c
    → AllSpare id n rs
    → Reaches rs c (Waits id n)
run-Waits [] id n c s k = reaches_now c (Waits id n) s
run-Waits ((w, r) ∷ rs) id n c s k =
    answers_then w r rs c (Waits id n) (Waits id n) (serve-Waiting w r id n c s k.0)
      (λ (d : Component) (t : Waits id n d). run-Waits rs id n d t k.1)

pub regs-Waiting :
    (w : World) (id n : ℕ) (c : Component) (m : ClientMap)
    → Sound c.tcp m
    → c.tcp.client_started ≡ false
    → c.tcp.suspended ≡ false
    → Answers w (regs id (some n)) c (Waits id n)
unfolding handle
regs-Waiting w id n c m s idle active =
    let ws = insert id (some n) c.tcp.wait_list in
    (
      _,
      [],
      serve_aside w (regs id (some n)) c (record c.tcp { wait_list = ws }) []
          (ap ok (reg_io_waits id c.tcp m s.has_map (some n) active idle)) refl,
      record {
        map_now = m;
        sound =
            waits-Sound ws c.tcp m
              (insert-From id 0 (some n) c.tcp.wait_list (omega arith) s.ordered) s;
        idle = idle;
        found = ground (arith, lookup-insert id id (some n) c.tcp.wait_list);
      },
    )

-- The start of the component, of which a source waits.
pub restarts-Serves :
    (w : World) (id n : ℕ) (c : Component)
    → Waits id n c
    → c.tcp.suspended ≡ false
    → Answers w restarts c (Serves id n)
unfolding handle serve
restarts-Serves w id n c s active =
    let r : Ready c.tcp s.map_now = record {
      has_map = s.sound.has_map;
      active = active;
      inv = s.sound.inv;
    } in
    let (tcp, es, t, e, has, drives, bound) =
      waiting-Bound w id n c.adapters c.tcp s.map_now r s.idle s.sound.ordered s.found in
    let (tcp', es', e', u) = restart-Started c.tcp s.map_now r s.idle in
    let same : tcp' ≡ tcp = cc in
    let q : u.map_after ≡ t.clients = cc (u.running.ready.has_map) in
    (
      record { tcp = tcp; adapters = t.adapters },
      (drive w (map_events es) c.adapters).1,
      rw e (rw drives),
      record {
        map_now = t.clients;
        sound = record {
          has_map = has;
          inv = subst Inv q u.running.ready.inv;
          open_map = λ _. ap (λ (m : ClientMap). m.stop_flag) (sym q) ∙ u.running.open_map;
          ordered =
              subst (λ ws. From 0 ws) (sym u.same ∙ ap (λ (x : ClientTcp). x.wait_list) same)
                s.sound.ordered;
        };
        started = ap (λ (x : ClientTcp). x.client_started) (sym same) ∙ u.running.started;
        bound = bound;
      },
    )
