-- ===== src/Hub/Tests.antt =====
-- The theorems on hub.cpp at a concrete hub.
use mathlib.Core.List.Permᴰ
use wfc_io.Hub.Unordered.{forget, any_order}
use wfc_io.Prelude.{
  ◌+◌, ◌≤◌, ◌≡◌, refl, true, false, none, some, [], ◌∷◌, ◌++◌, arith, ◌==◌, if◌then◌else◌,
}
use wfc_io.Prelude.Dict.{insert, erase}
use wfc_io.Iface.{Alive, empty, external, ok, performs}
use wfc_io.Iface.{registers}
use wfc_io.Hub.{init, initialize, reg_io, Hub, calls, restart, perform_io, broadcast}
use wfc_io.Hub.Delivery.{messages, registrations, for_target, copies, target_copy}
use wfc_io.Hub.Reaching
use wfc_io.Hub.Reaching.{Reach, new, later, initializes, restarts, reached_delivers}

-- Objects below 10 are there.
abbrev alive : Alive
alive n = if n == 10 then false else true

-- The sources 7 and 8, the target 5.
abbrev hub : Hub
hub = record {
  self = 1;
  id = 40;
  suspended = false;
  sources = (7, some 2) ∷ (8, some 3) ∷ [];
  target = some 5;
  target_handler = none;
  handler_id = 30;
}

abbrev idle_hub : Hub
idle_hub = record hub { suspended = true }

broadcast_example :
    perform_io alive (some (9 ∷ [])) 7 (external 1) hub
    ≡ ok (
        calls (performs 3 (some (9 ∷ [])) 40 empty)
        ∷ calls (performs 5 (some (9 ∷ [])) 30 (external 1))
        ∷ [])
unfolding perform_io broadcast
broadcast_example = refl

sources_sorted : (0 ≤ 7) × (8 ≤ 8) × Unit {0}
sources_sorted = omega arith

-- A new hub that finds its target and is given to it, and that the two sources register with.
abbrev history : Hub
history =
    reg_io 8 (some 3) (reg_io 7 (some 2) (restart alive 30 6 (initialize (some 5) (init 1 40))).0)

history-Reach : Reach 1 40 history
history-Reach =
    later
      (later (later (later new (initializes (some 5) (init 1 40))) (restarts alive 30 6 _))
        (Reaching.registers 7 (some 2) _))
      (Reaching.registers 8 (some 3) _)

history_runs : history.suspended ≡ false
unfolding init initialize restart reg_io
history_runs = refl

history_sources : history.sources ≡ hub.sources
unfolding init initialize restart reg_io insert
history_sources = refl

reached_delivers_example :
    let es =
      copies alive history.id (9 ∷ []) (erase 7 history.sources)
      ++ target_copy alive (9 ∷ []) 7 (external 1) history in
    (perform_io alive (some (9 ∷ [])) 7 (external 1) history ≡ ok es)
    × (messages 3 es
        ≡ (if alive 3 then registrations 3 (erase 7 history.sources) else 0)
          + for_target alive 3 7 history)
reached_delivers_example =
    reached_delivers 1 40 alive (9 ∷ []) 7 3 (external 1) history history-Reach history_runs

-- Objects 30 and 40, walked the one way and the other.
abbrev crowd : Hub
crowd = record (init 1 2) { sources = (3, some 30) ∷ (4, some 40) ∷ [] }

any_order_example :
    forget (perform_io (λ n. true) (some (5 ∷ [])) 9 empty crowd)
    ≡ forget (
        perform_io
          (λ n. true)
          (some (5 ∷ []))
          9
          empty
          (record crowd { sources = (4, some 40) ∷ (3, some 30) ∷ [] }))
any_order_example =
    any_order (λ n. true) (some (5 ∷ [])) 9 empty crowd ((4, some 40) ∷ (3, some 30) ∷ [])
      (unfold init in Permᴰ.swap refl refl)
