-- ===== src/Broker/Dispatch.antt =====
-- Where an io-broker sends a message, as its options have it.
use wfc_io.Prelude.{
  ℕ, ◌≤◌, ◌≡◌, refl, ◌∙◌, Bool, false, none, some, List, [], ◌∷◌, ◌++◌, arith, total, String,
}
use wfc_io.Iface.{DataPtr, Alive, Handler, performs}
use wfc_io.Broker.{
  Env, Rule, RuleTarget, Broker, Event, calls, match, find_rule, dispatch, restart, broker_log,
  send_to, perform_io,
}
use wfc_io.Broker.Rules.{AllLoad, Compiles, restart-Restarted}

-- Whether an event sends a message on.
abbrev is_message : Event → ℕ
is_message (calls (performs m d id handler)) = 1
is_message _ = 0

abbrev pub messages : List Event → ℕ
messages = total is_message

module _ (env : Env) where
  -- Whether the pattern of a rule matches a message.
  abbrev pub hits : List ℕ → Rule → Bool
  hits bytes r = elim (env.compile r.regex) [ none ↦ false | some re ↦ env.matches re bytes ]

  abbrev pub NoneHits : List ℕ → List Rule → Type 0
  NoneHits bytes [] = Unit
  NoneHits bytes (r ∷ rs) = (hits bytes r ≡ false) × NoneHits bytes rs

  find_none :
      (bytes : List ℕ) (rs : List Rule) (ts : List (RuleTarget env))
      → AllLoad env rs ts
      → NoneHits bytes rs
      → find_rule env bytes ts ≡ none
  unfolding find_rule match
  find_none bytes [] [] l misses = refl
  find_none bytes [] (t ∷ ts) l misses = absurd l
  find_none bytes (q ∷ rs) [] l misses = absurd l
  find_none bytes (q ∷ rs) (t ∷ ts) l misses =
      ground (arith, find_none bytes rs ts l.1 misses.1, l.0.0, misses.0)

  -- What is left of a message: an entry in the log, if it has a name, then the message itself to
  -- the object of the name, if it is there.
  abbrev pub delivered : Alive → String → String → List ℕ → ℕ → Handler → List Event
  delivered alive log target bytes io_id handler =
      broker_log env log bytes
      ++ send_to env alive (env.get_target target) (some bytes) io_id handler

  -- A message that no rule matches: after a restart in which every pattern compiles, a broker that
  -- is not suspended logs it in the default log, if that has a name, and sends it to the default
  -- target, if that is there.
  pub no_rule :
      (alive : Alive) (bytes : List ℕ) (io_id : ℕ) (handler : Handler) (b : Broker env)
      → Compiles env b.options.rules
      → b.suspended ≡ false
      → NoneHits bytes b.options.rules
      → (c : Broker env) × (restart env b ≡ some c)
        × (perform_io env alive (some bytes) io_id handler c
            ≡ delivered alive b.options.log b.options.target bytes io_id handler)
  unfolding perform_io dispatch
  no_rule alive bytes io_id handler b compiles active misses =
      let (c, e, k) = restart-Restarted env b compiles in
      let missed = find_none bytes b.options.rules c.rules k.loads misses in
      (c, e, ground (arith, k.suspended ∙ active, missed, k.target, k.target_log))

  -- Whatever its state, a broker sends a message on at most once, with or without data.
  pub sent_once :
      (alive : Alive) (d : DataPtr) (io_id : ℕ) (handler : Handler) (c : Broker env)
      → messages (perform_io env alive d io_id handler c) ≤ 1
  unfolding perform_io dispatch broker_log send_to
  sent_once alive none io_id handler c = ground arith
  sent_once alive (some bytes) io_id handler c = ground arith
