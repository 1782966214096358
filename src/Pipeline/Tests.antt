-- ===== src/Pipeline/Tests.antt =====
-- The theorem on chains, for one of each component.
use wfc_io.Prelude.{ℕ, ◌≡◌, refl, Bool, true, false, none, some, List, [], ◌∷◌, arith, ◌==◌}
use wfc_io.Iface.{Alive, Handler, external, performs}
use wfc_io.Statistics.{default_stat}
use wfc_io.Queue.{default_config}
use wfc_io.Broker.{Env, Broker, find_rule}
use wfc_io.Pipeline.{Stage, statistics, queue, broker, through}
use wfc_io.Pipeline.Passing.{Answers, BrokerLeads, chain_passes}

abbrev all : Alive
all n = true

abbrev tracked : ℕ → Bool
tracked n = true

-- The patterns are single bytes, with which a message begins.
abbrev begins : ℕ → List ℕ → Bool
begins n [] = false
begins n (m ∷ ms) = m == n

abbrev env : Env
env = record { Regex = ℕ; compile = λ s. some 97; matches = begins; get_target = λ s. some 40 }

abbrev counting : Stage env
counting = record {
  number = 10;
  component = statistics (record {
    name = "io";
    suspended = false;
    options = record { target = "queue" };
    stat_options = default_stat;
    has_statistics = true;
    target = some 20;
    timer_id = none;
    timers = record { running = []; next = 0 };
    next_meter = 0;
  });
}

abbrev queueing : Stage env
queueing = record {
  number = 20;
  component = queue (record {
    self = 20;
    suspended = false;
    options = record (default_config "broker" "w") { callback_queue = true };
    target = some 30;
    callback_workflow = some 8;
  });
}

abbrev choosing : Broker env
choosing = record {
  suspended = false;
  options = record { target = "object"; log = ""; rules = [] };
  target = some 40;
  target_log = "";
  targets = some 40 ∷ [];
  rules = record { target = some 40; log = "a"; matcher = record { reg = 97 } } ∷ [];
  reconf_flag = false;
}

choosing-leads : BrokerLeads env all tracked choosing 40
unfolding find_rule
choosing-leads = (refl, λ bytes r e. ground arith)

abbrev chain : List (Stage env)
chain = counting ∷ queueing ∷ record { number = 30; component = broker choosing } ∷ []

chain_passes_example :
    (h : Handler) × (through env all tracked chain (performs 10 (some (97 ∷ [])) 7 (external 1))
      ≡ performs 40 (some (97 ∷ [])) 7 h ∷ [])
    × Answers all tracked 1 (some (5 ∷ [])) h
chain_passes_example =
    chain_passes env all tracked chain 40 1 (some (97 ∷ [])) (some (5 ∷ [])) 7
      (refl, ((refl, refl), (choosing-leads, tt))) refl
