-- ===== src/Broker/Tests.antt =====
-- The theorems on broker.cpp at a concrete broker.
use wfc_io.Prelude.{
  ℕ, ◌≡◌, refl, Bool, true, false, Option, none, some, List, [], ◌∷◌, ◌==◌, if◌then◌else◌, String,
}
use text.Mathlib.Text.{◌==◌ as str_eq}
use wfc_io.Iface.{WeakPtr, Alive}
use wfc_io.Broker.{Env, Rule, BrokerConfig, Broker, init, generate, restart, reg_io}
use wfc_io.Broker.Rules.{reg_io-told, told, rules_for}

-- The patterns are single bytes, written as a letter: the one that a message has to begin with.
abbrev compile : String → Option ℕ
compile s = if str_eq s "a" then some 97 else if str_eq s "b" then some 98 else none

abbrev begins : ℕ → List ℕ → Bool
begins n [] = false
begins n (m ∷ ms) = m == n

abbrev get_target : String → WeakPtr
get_target s = if str_eq s "first" then some 1 else if str_eq s "second" then some 2 else some 3

abbrev env : Env
env = record { Regex = ℕ; compile = compile; matches = begins; get_target = get_target }

abbrev alive : Alive
alive n = if n == 9 then false else true

abbrev rule_a : Rule
rule_a = record { target = "first"; log = "alog"; regex = "a" }

abbrev rule_b : Rule
rule_b = record { target = "second"; log = ""; regex = "b" }

abbrev bad_rule : Rule
bad_rule = record { target = "second"; log = ""; regex = "(" }

abbrev config : List Rule → BrokerConfig
config rules = record { target = "default"; log = "dlog"; rules = rules }

abbrev broker : Broker env
broker = init env (config (rule_a ∷ rule_b ∷ [])) false

abbrev bad_broker : Broker env
bad_broker = init env (config (rule_a ∷ bad_rule ∷ rule_b ∷ [])) false

generated :
    (generate (config []) "x").rules ≡ record { target = "target1"; log = ""; regex = ".*" } ∷ []
unfolding generate
generated = refl

reg_io-told_example :
    (c : Broker env) × (restart env broker ≡ some c)
    × (told 2 (reg_io env alive 7 (some 4) c)
        ≡ (if alive 2 then rules_for env 2 broker.options.rules else 0))
unfolding init
reg_io-told_example = reg_io-told env alive 7 2 (some 4) broker (λ e. cc, (λ e. cc, tt))
