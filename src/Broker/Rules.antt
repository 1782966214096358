-- ===== src/Broker/Rules.antt =====
-- What `restart` of an io-broker makes of its options, and whom registrations reach.
use mathlib.Core.List.{append-nil, append_assoc}
use wfc_io.Prelude.{
  ℕ, ◌+◌, ◌≡◌, refl, ◌∙◌, ap, ◌≢◌, inl, inr, Option, none, some, List, [], ◌∷◌, ◌++◌, arith, is,
  if◌then◌else◌, Option-cases, total,
}
use wfc_io.Iface.{WeakPtr, Alive, registers}
use wfc_io.Broker.{
  Env, Rule, RuleTarget, Broker, Event, calls, new_regex_match, load_rules, restart, reg_each,
  reg_io,
}

-- How often a list of events tells an object of a source.
abbrev pub is_registration : ℕ → Event → ℕ
is_registration n (calls (registers m id itf)) = is n m
is_registration n _ = 0

abbrev pub told : ℕ → List Event → ℕ
told n = total (is_registration n)

abbrev pub is_object : ℕ → WeakPtr → ℕ
is_object n none = 0
is_object n (some m) = is n m

module _ (env : Env) where
  -- The rule that a broker keeps is that of the options, compiled, with its object.
  abbrev pub Loads : Rule → RuleTarget env → Type 0
  Loads r t =
      (env.compile r.regex ≡ some t.matcher.reg)
      × (t.target ≡ env.get_target r.target)
      × (t.log ≡ r.log)

  abbrev pub AllLoad : List Rule → List (RuleTarget env) → Type 0
  AllLoad [] [] = Unit
  AllLoad [] (t ∷ ts) = ⊥
  AllLoad (r ∷ rs) [] = ⊥
  AllLoad (r ∷ rs) (t ∷ ts) = Loads r t × AllLoad rs ts

  abbrev pub targets_of : List (RuleTarget env) → List WeakPtr
  targets_of [] = []
  targets_of (t ∷ ts) = t.target ∷ targets_of ts

  -- What a loop over the rules comes to, with what was there before.
  record Loaded (rs : List Rule) (before : List (RuleTarget env)) (ws : List WeakPtr)
      (r : Option (List (RuleTarget env) × List WeakPtr)) : Type 0 where
    new : List (RuleTarget env)
    result : r ≡ some (before ++ new, ws ++ targets_of new)
    loads : AllLoad rs new

  abbrev pub Compiles : List Rule → Type 0
  Compiles [] = Unit
  Compiles (r ∷ rs) = (env.compile r.regex ≢ none) × Compiles rs

  load_rules-Loaded :
      (rs : List Rule) (before : List (RuleTarget env)) (ws : List WeakPtr)
      → Compiles rs
      → Loaded rs before ws (load_rules env rs before ws)
  unfolding load_rules
  load_rules-Loaded [] before ws c = record { new = []; result = simp append-nil; loads = tt }
  load_rules-Loaded (r ∷ rs) before ws c = elim (Option-cases (env.compile r.regex)) [
    | inl bad ↦ absurd (c.0 bad)
    | inr (re, e) ↦
        let t : RuleTarget env = record {
          target = env.get_target r.target;
          log = r.log;
          matcher = record { reg = re };
        } in
        let ih = load_rules-Loaded rs (before ++ t ∷ []) (ws ++ t.target ∷ []) c.1 in
        record {
          new = t ∷ ih.new;
          result = rw (load_rules, new_regex_match, e) (ih.result ∙ simp append_assoc);
          loads = ((e, refl, refl), ih.loads);
        }
  ]

  -- What a broker is after a restart.
  pub record Restarted (b c : Broker env) : Type 0 where
    pub loads : AllLoad b.options.rules c.rules
    pub targets : c.targets ≡ targets_of c.rules
    pub target : c.target ≡ env.get_target b.options.target
    pub target_log : c.target_log ≡ b.options.log
    pub suspended : c.suspended ≡ b.suspended

  -- If every pattern compiles, `restart` returns, with one rule for each of the options, in their
  -- order.
  pub restart-Restarted :
      (b : Broker env)
      → Compiles b.options.rules
      → (c : Broker env) × (restart env b ≡ some c) × Restarted b c
  unfolding restart
  restart-Restarted b c =
      let l = load_rules-Loaded b.options.rules [] [] c in
      (
        record b {
          targets = targets_of l.new;
          rules = l.new;
          target_log = b.options.log;
          target = env.get_target b.options.target;
        },
        rw (l.result, restart),
        record {
          loads = l.loads;
          targets = refl;
          target = refl;
          target_log = refl;
          suspended = refl;
        },
      )

  -- How many rules of the options lead to an object.
  abbrev pub rules_for : ℕ → List Rule → ℕ
  rules_for n [] = 0
  rules_for n (r ∷ rs) = is_object n (env.get_target r.target) + rules_for n rs

  reg_each-told :
      (alive : Alive) (io_id n : ℕ) (itf : WeakPtr) (rs : List Rule) (ts : List (RuleTarget env))
      → AllLoad rs ts
      → told n (reg_each env alive io_id itf (targets_of ts))
        ≡ (if alive n then rules_for n rs else 0)
  unfolding reg_each
  reg_each-told alive io_id n itf [] [] l = ground arith
  reg_each-told alive io_id n itf [] (t ∷ ts) l = absurd l
  reg_each-told alive io_id n itf (r ∷ rs) [] l = absurd l
  reg_each-told alive io_id n itf (r ∷ rs) (t ∷ ts) l =
      let ih = reg_each-told alive io_id n itf rs ts l.1 in ground (arith, ih, l.0.1)

  -- Registration goes to the rules' objects: after a restart in which every pattern compiles,
  -- `reg_io` tells each object that is there once for each rule that leads to it, and no other
  -- object, so that an object which is the default target alone is not told.
  pub reg_io-told :
      (alive : Alive) (io_id n : ℕ) (itf : WeakPtr) (b : Broker env)
      → Compiles b.options.rules
      → (c : Broker env) × (restart env b ≡ some c)
        × (told n (reg_io env alive io_id itf c)
            ≡ (if alive n then rules_for n b.options.rules else 0))
  unfolding reg_io
  reg_io-told alive io_id n itf b compiles =
      let (c, e, r) = restart-Restarted b compiles in
      let told_each = reg_each-told alive io_id n itf b.options.rules c.rules r.loads in
      (c, e, rw r.targets (omega (arith, told_each)))

  load_rules_bad :
      (before after : List Rule) (r : Rule) (ts : List (RuleTarget env)) (ws : List WeakPtr)
      → env.compile r.regex ≡ none
      → load_rules env (before ++ r ∷ after) ts ws ≡ none
  unfolding load_rules new_regex_match
  load_rules_bad [] after r ts ws bad = rw (load_rules, new_regex_match, bad) refl
  load_rules_bad (q ∷ before) after r ts ws bad = elim (Option-cases (env.compile q.regex)) [
    | inl none_too ↦ rw (load_rules, new_regex_match, none_too) refl
    | inr (re, e) ↦
        let t : RuleTarget env = record {
          target = env.get_target q.target;
          log = q.log;
          matcher = record { reg = re };
        } in
        rw (load_rules, new_regex_match, e)
          (load_rules_bad before after r (ts ++ t ∷ []) (ws ++ t.target ∷ []) bad)
  ]

  -- One pattern among the rules that does not compile, wherever it stands, ends `restart` with an
  -- exception, before the broker has changed.
  pub restart_bad :
      (b : Broker env) (before after : List Rule) (r : Rule)
      → b.options.rules ≡ before ++ r ∷ after
      → env.compile r.regex ≡ none
      → restart env b ≡ none
  unfolding restart
  restart_bad b before after r e bad =
      let stuck = load_rules_bad before after r [] [] bad in
      ground (arith, ap (λ rs. load_rules env rs [] []) e ∙ stuck)
