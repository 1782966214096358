-- ===== src/Tank/Tests.antt =====
-- The theorems on tank_io.cpp at concrete objects, and the counters of a request.
use wfc_io.Prelude.{
  ℕ, ◌+◌, ◌-◌, ◌*◌, ◌^◌, ◌%◌, ◌≡◌, refl, Bool, true, false, Option, none, some, List, [], ◌∷◌,
  arith,
}
use wfc_io.Prelude.Options.{◌>>=◌}
use wfc_io.Prelude.Int.{pos, negsuc, ◌+ℤ◌, ◌-ℤ◌}
use wfc_io.Prelude.Dict.{insert, lookup, erase}
use wfc_io.Tank.{
  TankOptions, default_options, Variable, Replacement, Parsed, Env, Event, Tank, init, configure,
  expect, substitute, next_all, replace_all, make_request, lookup_counter,
}
use wfc_io.Tank.Numbers.{numbers}
use wfc_io.Tank.Moving.{nil, cons}
use wfc_io.Tank.Rounds.{counted_requests}
use wfc_io.Tank.Counters.{Counter, default_counter, new_counter, next, to_long}
use wfc_io.Tank.Check.{Shrinks, check_response, check_response_total}
use wfc_io.Tank.Pending.{make_all, check_all, second, in_order}
use wfc_io.Tank.Interleaving.{Action, requests, responds, run_all, verdicts, interleaved_checked}
use wfc_io.Tank.Calls.{response, call_checked, last_unchecked}
use wfc_io.Tank.Counting.{Counts}

-- A message is a list of responses, of two numbers each: the identifier and the result.
abbrev parse : Option (List ℕ) → Bool → Parsed
parse none e = record (response 0 []) { error = e }
parse (some []) e = record (response 0 []) { error = true }
parse (some (id ∷ [])) e = record (response 0 []) { error = true }
parse (some (id ∷ r ∷ [])) e = response id (r ∷ [])
parse (some (id ∷ r ∷ n ∷ more)) e = record (response id (r ∷ [])) { rest = some (n ∷ more) }

abbrev count_vars : List Variable
count_vars =
    record { prefix = "TANK"; name = "ID"; options = [] }
    ∷ record { prefix = "TANK"; name = "COUNT2"; options = [] }
    ∷ record {
      prefix = "TANK";
      name = "COUNT1";
      options = ("from", pos 10) ∷ ("to", pos 20) ∷ ("step", pos 2) ∷ [];
    }
    ∷ []

-- A number for each replacement.
abbrev written : List Replacement → List ℕ
written [] = []
written (r ∷ rs) = elim r.value [ pos n ↦ n ∷ written rs | negsuc n ↦ written rs ]

abbrev env : Env
env = record {
  serialize = λ method req id. id ∷ req;
  parse = parse;
  search_vars = λ text. count_vars;
  replace_vars = λ text rs. written rs;
}

abbrev plain : TankOptions
plain = record default_options { check_response = true }

abbrev calls : TankOptions
calls = record plain { jsonrpc_method = some "test" }

abbrev with_vars : TankOptions
with_vars = record default_options { enable_vars = true; jsonrpc_method = some "test" }

abbrev two_requests : Option (List ℕ × List ℕ)
two_requests = do
  (t1, first, es) ← make_request env with_vars [] [] (configure (init 0)).0
  (t2, second, fs) ← make_request env with_vars [] [] t1
  some (first, second)

-- The numbers of tests/tank_suite.cpp, and those of the next request.
counted : two_requests ≡ some (1 ∷ 0 ∷ 10 ∷ [], 2 ∷ 1 ∷ 12 ∷ [])
unfolding configure init make_request expect substitute replace_all next_all next insert to_long
    ◌+ℤ◌ ◌-ℤ◌
counted = refl

abbrev empty_tank : Tank
empty_tank = record {
  initial_make = false;
  call_id = 5;
  call_map = [];
  io_queue = [];
  counters = [];
}

-- The call 6 is pending, and 8.
abbrev pending_tank : Tank
pending_tank = record empty_tank { call_map = (6, 7 ∷ []) ∷ (8, 9 ∷ []) ∷ [] }

in_order_example :
    (t1 t2 : Tank) × (make_all env plain (([], 1 ∷ []) ∷ ([], 2 ∷ []) ∷ []) empty_tank ≡ some t1)
    × (check_all env plain ((1 ∷ []) ∷ (3 ∷ []) ∷ []) t1 ≡ some (true ∷ false ∷ [], t2))
in_order_example =
    in_order env plain (([], 1 ∷ []) ∷ ([], 2 ∷ []) ∷ []) ((1 ∷ []) ∷ (3 ∷ []) ∷ []) empty_tank refl
      refl refl refl

call_checked_example :
    (t1 t2 t3 : Tank) × (es fs : List Event) × (make_all env calls
        (([], 7 ∷ []) ∷ ([], 9 ∷ []) ∷ [])
        empty_tank
      ≡ some t1)
    × (check_response env calls (6 ∷ 7 ∷ []) t1 ≡ some (true, t2, es))
    × (check_response env calls (6 ∷ 7 ∷ []) t2 ≡ some (false, t3, fs))
call_checked_example =
    call_checked env calls "test" [] (7 ∷ []) (7 ∷ []) (6 ∷ 7 ∷ []) (([], 9 ∷ []) ∷ []) empty_tank
      refl refl refl tt (omega arith) refl refl refl

last_unchecked_example :
    (es : List Event) × (check_response env calls (6 ∷ 7 ∷ 8 ∷ 1 ∷ []) pending_tank
      ≡ some (true, record pending_tank { call_map = erase 6 pending_tank.call_map }, es))
unfolding lookup
last_unchecked_example =
    last_unchecked env calls "test" 6 (7 ∷ []) (7 ∷ []) (6 ∷ 7 ∷ 8 ∷ 1 ∷ []) (8 ∷ 1 ∷ [])
      (response 8 (1 ∷ [])).holder pending_tank refl refl refl refl refl

parse_shrinks : Shrinks env
parse_shrinks [] r e left = ground arith
parse_shrinks (a ∷ []) r e left = ground arith
parse_shrinks (a ∷ b ∷ []) r e left = ground arith
parse_shrinks (a ∷ b ∷ c ∷ more) r e left = ground arith

check_response_total_example :
    (r : Bool × Tank × List Event) × (check_response env calls (6 ∷ 7 ∷ 8 ∷ 1 ∷ []) pending_tank
      ≡ some r)
check_response_total_example =
    check_response_total env calls (6 ∷ 7 ∷ 8 ∷ 1 ∷ []) pending_tank parse_shrinks (λ e. refl)

-- The counter of tests/tank_suite.cpp.
abbrev tens : Counter
tens = new_counter (pos 10) (pos 10) (pos 20) (pos 2)

tens-Counts : Counts 10 2 0 tens
unfolding ◌+ℤ◌
tens-Counts = record {
  low = refl;
  high = refl;
  span = refl;
  size = omega arith;
  step = refl;
  forward = omega arith;
  fits = omega arith;
  current = refl;
  inside = omega arith;
}

-- The second call is answered first, the first one with another result, and then once more.
abbrev mixed : List Action
mixed =
    requests [] (7 ∷ [])
    ∷ requests [] (9 ∷ [])
    ∷ responds (7 ∷ 9 ∷ []) 7 (9 ∷ [])
    ∷ responds (6 ∷ 8 ∷ []) 6 (8 ∷ [])
    ∷ responds (6 ∷ 7 ∷ []) 6 (7 ∷ [])
    ∷ []

verdicts-mixed : verdicts mixed 5 (λ k. none) ≡ true ∷ false ∷ false ∷ []
unfolding verdicts
verdicts-mixed = refl

interleaved_checked_example :
    (t : Tank) × (run_all env calls mixed empty_tank
      ≡ some (verdicts mixed 5 (λ k. lookup k empty_tank.call_map), t))
interleaved_checked_example =
    interleaved_checked env calls "test" refl refl refl refl refl mixed empty_tank
      (refl, (refl, (refl, tt))) tt

default-Counts : Counts (2 ^ 63 - 1) 1 0 default_counter
unfolding ◌+ℤ◌
default-Counts = record {
  low = refl;
  high = refl;
  span = refl;
  size = omega arith;
  step = refl;
  forward = omega arith;
  fits = omega arith;
  current = refl;
  inside = omega arith;
}

-- After the first of the requests above.
abbrev counting : Tank
counting = record empty_tank { counters = ("COUNT2", default_counter) ∷ ("COUNT1", tens) ∷ [] }

counted_requests_example :
    (t1 t2 : Tank) × (es : List Event) × (d : Counter) × (make_all env with_vars
        (([], []) ∷ ([], []) ∷ [])
        counting
      ≡ some t1)
    × (make_request env with_vars [] [] t1
        ≡ some (
          t2,
          (let text = (expect env with_vars [] [] t1).1 in
              env.replace_vars text (numbers t2.call_id t2.counters (env.search_vars text))),
          es,
        ))
    × (lookup_counter "COUNT1" t2.counters ≡ some d)
    × (d.current ≡ tens.from +ℤ pos ((0 + 3 * 2) % 10))
counted_requests_example =
    counted_requests env with_vars (([], []) ∷ ([], []) ∷ []) [] [] "COUNT1" 10 2 0 tens counting
      refl refl (cons default-Counts (cons tens-Counts nil)) refl tens-Counts
