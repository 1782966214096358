-- ===== src/Statistics/Tests.antt =====
-- The theorems on statistics.cpp at a concrete object.
use wfc_io.Prelude.{◌≡◌, refl, true, false, none, some, [], ◌∷◌}
use wfc_io.Statistics.{Statistics, value_meter, composite_meter, default_stat, initialize}

abbrev stat : Statistics
stat = record {
  name = "io";
  suspended = false;
  options = record { target = "t" };
  stat_options = default_stat;
  has_statistics = true;
  target = some 5;
  timer_id = none;
  timers = record { running = []; next = 3 };
  next_meter = 0;
}

meters :
    (initialize (λ s. some 5) stat).1
    ≡ composite_meter "io.time" "io.read_size" "io.write_size" ∷ value_meter "io.connections" ∷ []
unfolding initialize
meters = refl
