-- ===== src/Tank/Counters.antt =====
-- The class `__counter` of tank_io.hpp. A `long` has 64 bits; the overflow of a signed number is
-- undefined, here `none`.
use wfc_io.Prelude.{◌^◌, ◌-◌, Option, none, some, if◌then◌else◌}
use wfc_io.Prelude.Options.{◌>>=◌}
use wfc_io.Prelude.Int.{ℤ, pos, negsuc, ◌+ℤ◌, ◌-ℤ◌, ltb_ℤ}

pub record Counter : Type 0 where
  pub current : ℤ
  pub from : ℤ
  pub to : ℤ
  pub step : ℤ

-- `std::numeric_limits<long>::max()`, and the least number.
abbrev pub long_max : ℤ
long_max = pos (2 ^ 63 - 1)

abbrev pub long_min : ℤ
long_min = negsuc (2 ^ 63 - 1)

abbrev pub default_counter : Counter
default_counter = record { current = pos 0; from = pos 0; to = long_max; step = pos 1 }

abbrev pub new_counter : ℤ → ℤ → ℤ → ℤ → Counter
new_counter c f t s = record { current = c; from = f; to = t; step = s }

unfoldable pub to_long : ℤ → Option ℤ
to_long x = if ltb_ℤ x long_min then none else if ltb_ℤ long_max x then none else some x

abbrev pub add : ℤ → ℤ → Option ℤ
add x y = to_long (x +ℤ y)

abbrev pub subtract : ℤ → ℤ → Option ℤ
subtract x y = to_long (x -ℤ y)

-- `from + step - (to - current)`.
unfoldable pub wrapped : ℤ → Counter → Option ℤ
wrapped left c = do end ← add c.from c.step; subtract end left

unfoldable pub next : Counter → Option Counter
unfolding wrapped
next c = do
  left ← subtract c.to c.current
  current ← if ltb_ℤ c.step left then add c.current c.step else wrapped left c
  some (record c { current = current })
