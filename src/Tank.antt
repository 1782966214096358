-- ===== src/Tank.antt =====
-- package/tank/tank/tank_io.{hpp,cpp} and tank_options.hpp: `tank-io`, which makes requests for a
-- load generator and checks the responses. The counters and the proofs are in the modules below.
--
-- Bytes and the strings made of them are lists of numbers. The libraries wjrpc (JSON-RPC) and vars
-- (variables in a text) are a parameter.
pub mod Counters
pub mod Check
pub mod Pending
pub mod Counting
pub mod Calls
pub mod Interleaving
pub mod Numbers
pub mod Moving
pub mod Rounds
mod Tests
use text.Mathlib.Text.{◌==◌ as str_eq, starts_with}
use wfc_io.Prelude.{
  ℕ, zero, suc, ◌+◌, ◌-◌, ◌^◌, ◌%◌, Bool, true, false, not, ◌&&◌, Option, none, some, List, [], ◌∷◌,
  ◌++◌, map, String, ltb, ◌==◌, if◌then◌else◌,
}
use wfc_io.Prelude.Options.{◌>>=◌}
use wfc_io.Prelude.Int.{ℤ, pos, negsuc}
use wfc_io.Prelude.Dict.{Dict, insert}
use Counters.{Counter, default_counter, new_counter, next}

pub record TankOptions : Type 0 where
  pub enable_vars : Bool
  pub show_request : Bool
  pub show_response : Bool
  pub check_response : Bool
  pub jsonrpc_method : Option String

-- The default values of the fields.
abbrev pub default_options : TankOptions
default_options = record {
  enable_vars = false;
  show_request = false;
  show_response = false;
  check_response = false;
  jsonrpc_method = none;
}

-- A variable in a text, as `search_vars` lists it; the options are read as numbers.
pub record Variable : Type 0 where
  pub prefix : String
  pub name : String
  pub options : List (String × ℤ)

-- An element of the list for `replace_vars`; its prefix is TANK, and the number is put in decimal.
pub record Replacement : Type 0 where
  pub name : String
  pub value : ℤ

-- A response in a message, as `incoming_holder` reads it.
pub record Holder : Type 0 where
  pub is_response : Bool
  -- `get_id<int>`, by the 32 bits of the number, and `get_result`; `none` is an error, and a result
  -- may be the null pointer.
  pub get_id : Option ℕ
  pub get_result : Option (Option (List ℕ))

-- `parse(&e)`: what is read, what is left of the data, and the error.
pub record Parsed : Type 0 where
  pub holder : Holder
  pub rest : Option (List ℕ)
  pub error : Bool

-- The libraries.
pub record Env : Type 0 where
  -- The request with a method, parameters and an identifier.
  pub serialize : String → List ℕ → ℕ → List ℕ
  -- The data, and the error before.
  pub parse : Option (List ℕ) → Bool → Parsed
  pub search_vars : List ℕ → List Variable
  pub replace_vars : List ℕ → List Replacement → List ℕ

pub data Event : Type 0 where
  registers_object : Event
  base_configures base_stops : Event
  -- What is logged.
  message : List ℕ → Event
  error fatal : Event

-- `counters` stands for a map by name: a name occurs once, and the order is of no consequence.
pub record Tank : Type 0 where
  pub initial_make : Bool
  pub call_id : ℕ
  pub call_map : Dict (List ℕ)
  pub io_queue : List (List ℕ)
  pub counters : List (String × Counter)

-- The constructor; `call_id` is shared by all objects.
pub init : ℕ → Tank
init call_id = record {
  initial_make = false;
  call_id = call_id;
  call_map = [];
  io_queue = [];
  counters = [];
}

pub configure : Tank → Tank × List Event
configure t = (record t { initial_make = true }, base_configures ∷ registers_object ∷ [])

pub stop : Tank → Tank × List Event
stop t = (t, base_stops ∷ [])

-- `opt.jsonrpc_method != nullptr && !opt.jsonrpc_method->empty()`.
abbrev pub method_of : Option String → Option String
method_of none = none
method_of (some m) = if str_eq m "" then none else some m

-- `++_call_id`, of 32 bits.
abbrev pub next_id : ℕ → ℕ
next_id n = (n + 1) % 2 ^ 32

-- The number of 32 bits.
abbrev pub as_int : ℕ → ℤ
as_int n = if ltb n (2 ^ 31) then pos n else negsuc (2 ^ 32 - n - 1)

abbrev pub lookup_counter : String → List (String × Counter) → Option Counter
lookup_counter name [] = none
lookup_counter name ((n, c) ∷ cs) = if str_eq name n then some c else lookup_counter name cs

abbrev pub set_counter : String → Counter → List (String × Counter) → List (String × Counter)
set_counter name new [] = (name, new) ∷ []
set_counter name new ((n, c) ∷ cs) =
    let rest = set_counter name new cs in if str_eq name n then (n, new) ∷ cs else (n, c) ∷ rest

-- `vars::get_opt<long>`, with a default.
abbrev pub get_opt : List (String × ℤ) → String → ℤ → ℤ
get_opt [] name default = default
get_opt ((n, v) ∷ rest) name default = if str_eq name n then v else get_opt rest name default

-- The first part of `make_request_`: the result that is expected is kept, under the identifier of a
-- JSON-RPC request, or at the end of the queue.
pub expect : Env → TankOptions → List ℕ → List ℕ → Tank → Tank × List ℕ
expect env opt req res t = elim (method_of opt.jsonrpc_method) [
  | some method ↦
      let id = next_id t.call_id in
      (record t { call_id = id; call_map = insert id res t.call_map }, env.serialize method req id)
  | none ↦ (record t { io_queue = t.io_queue ++ res ∷ [] }, req)
]

-- `for ( auto& cv : _counters ) cv.second->next()`; `none` is a signed overflow.
pub next_all : List (String × Counter) → Option (List (String × Counter))
next_all [] = some []
next_all ((n, c) ∷ cs) = do new ← next c; rest ← next_all cs; some ((n, new) ∷ rest)

-- The counter that the first request makes for a variable.
initial_counter : Variable → List (String × Counter) → List (String × Counter)
initial_counter cv cs = elim cv.options [
  | [] ↦ elim (lookup_counter cv.name cs) [
    | none ↦ set_counter cv.name default_counter cs
    | some c ↦ cs
  ]
  | _ ∷ _ ↦
      set_counter cv.name
        (new_counter (get_opt cv.options "from" (pos 1)) (get_opt cv.options "from" (pos 1))
          (get_opt cv.options "to" (pos 100)) (get_opt cv.options "step" (pos 1)))
        cs
]

-- The variables that the loop over the list has dealt with.
pub record Replaced : Type 0 where
  pub counters : List (String × Counter)
  pub replacements : List Replacement
  pub events : List Event

replace_one : Bool → ℕ → Variable → Replaced → Replaced
unfolding initial_counter
replace_one initial call_id cv r =
    if not (str_eq cv.prefix "TANK")
    then r
    else if str_eq cv.name "ID"
    then record r {
      replacements = r.replacements ++ record { name = "ID"; value = as_int call_id } ∷ [];
    }
    else if starts_with cv.name "COUNT"
    then (let cs = if initial then initial_counter cv r.counters else r.counters in
        elim (lookup_counter cv.name cs) [
          | some c ↦ record r {
            counters = cs;
            replacements = r.replacements ++ record { name = cv.name; value = c.current } ∷ [];
          }
          | none ↦ record r { counters = cs; events = r.events ++ fatal ∷ [] }
        ])
    else r

pub replace_all : Bool → ℕ → List Variable → Replaced → Replaced
unfolding replace_one
replace_all initial call_id [] r = r
replace_all initial call_id (cv ∷ cvs) r =
    replace_all initial call_id cvs (replace_one initial call_id cv r)

-- The second part of `make_request_`.
pub substitute : Env → TankOptions → List ℕ → Tank → Option (Tank × List ℕ × List Event)
unfolding next_all replace_all
substitute env opt req t = if not opt.enable_vars then some (t, req, []) else do
  counters ← if t.initial_make then some t.counters else next_all t.counters
  let start : Replaced = record { counters = counters; replacements = []; events = [] }
  let r = replace_all t.initial_make t.call_id (env.search_vars req) start
  some (record t { counters = r.counters }, env.replace_vars req r.replacements, r.events)

-- The new state and request, with what is logged.
pub make_request : Env → TankOptions → List ℕ → List ℕ → Tank → Option (Tank × List ℕ × List Event)
unfolding expect substitute
make_request env opt req res t = do
  let (t1, req1) = expect env opt req res t
  (t2, req2, es) ← substitute env opt req1 t1
  some (
    record t2 { initial_make = false },
    req2,
    es ++ (if opt.show_request then message req2 ∷ [] else []),
  )
