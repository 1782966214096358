-- ===== src/Statistics/Timing.antt =====
-- The timer of an io-statistics.
use wfc_io.Prelude.{◌≤◌, List, [], ◌∷◌, arith, length, String}
use wfc_io.Iface.{WeakPtr}
use wfc_io.Workflow.{release, Own, release-Own, create-Own}
use wfc_io.Statistics.{Statistics, initialize, start_timer}

-- k initializations, each with the objects that it finds.
pub initializations : List (String → WeakPtr) → Statistics → Statistics
initializations [] s = s
initializations (found ∷ rest) s = initializations rest (initialize found s).0

initialize-Own :
    (found : String → WeakPtr) (s : Statistics)
    → Own s.timer_id s.timers
    → Own (initialize found s).0.timer_id (initialize found s).0.timers
unfolding initialize start_timer
initialize-Own found s own =
    let idle = release-Own s.timer_id s.timers own in
    let made = create-Own (release s.timer_id s.timers) idle in ground (arith, idle, made)

-- However often it is initialized, an object whose workflow runs at most its own timer before runs
-- at most one timer.
pub initializations-one :
    (found : List (String → WeakPtr)) (s : Statistics)
    → Own s.timer_id s.timers
    → length (initializations found s).timers.running ≤ 1
unfolding initializations
initializations-one [] s own = ground arith
initializations-one (f ∷ fs) s own =
    initializations-one fs (initialize f s).0 (initialize-Own f s own)
