-- ===== src/Broker.antt =====
-- package/broker/broker/: `io-broker`, which sends each message to the target of the first rule
-- whose regular expression it matches. The proofs are in the modules below.
--
-- Regular expressions are boost's: what a pattern compiles to and what it matches are parameters.
-- So are the objects behind the names of the targets, which the domain object looks up.
pub mod Dispatch
pub mod Rules
mod Tests
use text.Mathlib.Text.{◌==◌ as str_eq}
use wfc_io.Prelude.{
  ℕ, Bool, true, false, ◌||◌, Option, none, some, List, [], ◌∷◌, ◌++◌, map, if◌then◌else◌, String,
}
use wfc_io.Iface.{DataPtr, WeakPtr, Alive, lock, Handler, Call, performs, registers, unregisters}

-- `broker_config::rule` and `broker_config`.
pub record Rule : Type 0 where
  pub target : String
  pub log : String
  pub regex : String

pub record BrokerConfig : Type 0 where
  pub target : String
  pub log : String
  pub rules : List Rule

-- What boost and the domain object provide. A pattern that does not compile throws.
pub record Env : Type 1 where
  pub Regex : Type 0
  pub compile : String → Option Regex
  pub matches : Regex → List ℕ → Bool
  pub get_target : String → WeakPtr

pub data Event : Type 0 where
  calls : Call → Event
  -- A message in a log, by its name.
  logs : String → List ℕ → Event
  -- `domain_object::reg_io` and `domain_object::unreg_io`.
  base_registers : ℕ → WeakPtr → Event
  base_unregisters : ℕ → Event

-- The first element of `rules.resize(1)`.
abbrev pub resize_one : List Rule → Rule
resize_one [] = record { target = ""; log = ""; regex = "" }
resize_one (r ∷ rest) = r

-- `base` is what the domain object generates.
pub generate : BrokerConfig → String → BrokerConfig
generate base val = if str_eq val "" then base else record base {
  rules = record (resize_one base.rules) { target = "target1"; regex = ".*" } ∷ [];
}

module _ (env : Env) where
  open env use {Regex, compile, matches, get_target}

  -- The class `regex_match`.
  pub record RegexMatch : Type 0 where
    pub reg : Regex

  pub new_regex_match : String → Option RegexMatch
  new_regex_match regex = elim (compile regex) [ none ↦ none | some r ↦ some (record { reg = r }) ]

  unfoldable pub match : RegexMatch → List ℕ → Bool
  match m bytes = matches m.reg bytes

  pub record RuleTarget : Type 0 where
    pub target : WeakPtr
    pub log : String
    pub matcher : RegexMatch

  pub record Broker : Type 0 where
    pub suspended : Bool
    pub options : BrokerConfig
    pub target : WeakPtr
    pub target_log : String
    pub targets : List WeakPtr
    pub rules : List RuleTarget
    pub reconf_flag : Bool

  pub init : BrokerConfig → Bool → Broker
  init options suspended = record {
    suspended = suspended;
    options = options;
    target = none;
    target_log = "";
    targets = [];
    rules = [];
    reconf_flag = false;
  }

  pub configure : Broker → Broker
  configure b = record b { reconf_flag = false }

  pub reconfigure : Broker → Broker
  reconfigure b = record b { reconf_flag = true }

  -- The loop of `restart` over the rules of the options, with what it has collected; `none` is an
  -- exception of a pattern.
  pub load_rules :
      List Rule → List RuleTarget → List WeakPtr → Option (List RuleTarget × List WeakPtr)
  unfolding new_regex_match
  load_rules [] rules targets = some (rules, targets)
  load_rules (r ∷ rest) rules targets = elim (new_regex_match r.regex) [
    | none ↦ none
    | some m ↦
        load_rules rest
          (rules ++ record { target = get_target r.target; log = r.log; matcher = m } ∷ [])
          (targets ++ get_target r.target ∷ [])
  ]

  pub restart : Broker → Option Broker
  unfolding load_rules
  restart b = elim (load_rules b.options.rules [] []) [
    | none ↦ none
    | some (rules, targets) ↦ some (record b {
      targets = targets;
      rules = rules;
      target_log = b.options.log;
      target = get_target b.options.target;
    })
  ]

  pub start : Broker → Option Broker
  unfolding restart
  start b = restart b

  -- The loops of `reg_io` and `unreg_io`.
  pub reg_each : Alive → ℕ → WeakPtr → List WeakPtr → List Event
  reg_each alive io_id itf [] = []
  reg_each alive io_id itf (w ∷ ws) =
      elim (lock alive w) [ none ↦ [] | some t ↦ calls (registers t io_id itf) ∷ [] ]
      ++ reg_each alive io_id itf ws

  pub unreg_each : Alive → ℕ → List WeakPtr → List Event
  unreg_each alive io_id [] = []
  unreg_each alive io_id (w ∷ ws) =
      elim (lock alive w) [ none ↦ [] | some t ↦ calls (unregisters t io_id) ∷ [] ]
      ++ unreg_each alive io_id ws

  pub reg_io : Alive → ℕ → WeakPtr → Broker → List Event
  unfolding reg_each
  reg_io alive io_id itf b = base_registers io_id itf ∷ reg_each alive io_id itf b.targets

  pub unreg_io : Alive → ℕ → Broker → List Event
  unfolding unreg_each
  unreg_io alive io_id b = base_unregisters io_id ∷ unreg_each alive io_id b.targets

  -- The macro BROKER_LOG.
  unfoldable pub broker_log : String → List ℕ → List Event
  broker_log name bytes = if str_eq name "" then [] else logs name bytes ∷ []

  unfoldable pub send_to : Alive → WeakPtr → DataPtr → ℕ → Handler → List Event
  send_to alive w d io_id handler = elim (lock alive w) [
    | none ↦ []
    | some t ↦ calls (performs t d io_id handler) ∷ []
  ]

  -- `std::find_if` over the rules.
  unfoldable pub find_rule : List ℕ → List RuleTarget → Option RuleTarget
  unfolding match
  find_rule bytes [] = none
  find_rule bytes (r ∷ rest) = if match r.matcher bytes then some r else find_rule bytes rest

  unfoldable pub dispatch : Alive → List ℕ → ℕ → Handler → Broker → List Event
  unfolding broker_log send_to find_rule
  dispatch alive bytes io_id handler b = elim (find_rule bytes b.rules) [
    | some r ↦ broker_log r.log bytes ++ send_to alive r.target (some bytes) io_id handler
    | none ↦ broker_log b.target_log bytes ++ send_to alive b.target (some bytes) io_id handler
  ]

  unfoldable pub perform_io : Alive → DataPtr → ℕ → Handler → Broker → List Event
  unfolding dispatch send_to
  perform_io alive none io_id handler b = send_to alive b.target none io_id handler
  perform_io alive (some bytes) io_id handler b =
      if b.suspended
      then send_to alive b.target (some bytes) io_id handler
      else dispatch alive bytes io_id handler b
