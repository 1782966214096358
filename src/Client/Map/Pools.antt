-- ===== src/Client/Map/Pools.antt =====
-- The pools of a `client_tcp_map`: which one a client comes from, and how large they stay.
use wfc_io.Prelude.{
  ℕ, ◌+◌, ◌≤◌, ◌≡◌, refl, ap, ◌⊎◌, inl, inr, true, false, List, [], ◌∷◌, ◌++◌, arith, length,
  length-append,
}
use wfc_io.Client.Options.{Config}
use wfc_io.Client.Map.{
  ClientMap, Op, reconfigures, stopped, creates, regs, unregs, sends, frees, init, create, reg_io,
  unreg_io, perform_io, release, free, stop, reconfigure_and_start, step, run, make_client,
  take_primary, take_secondary, take_startup, create_client, upsert, upsert_commit, find,
}
use wfc_io.Client.Map.Fill.{length-range}
use wfc_io.Client.Map.Steps.{filled_startup_lem, filled_primary_lem}

abbrev pub first_or : ℕ → List ℕ → ℕ
first_or d [] = d
first_or d (x ∷ xs) = x

-- A client comes from the startup pool, if that is empty from the secondary pool, then from the
-- primary pool, and is a new one only where all three are empty.
pub create_client-first_or :
    (s : ClientMap) → (create_client s).0 ≡ first_or s.next (s.startup ++ s.secondary ++ s.primary)
unfolding create_client take_startup take_secondary take_primary make_client
create_client-first_or s = ground arith

-- The primary pool is as long as it is configured, but for a map that is stopped, and the secondary
-- pool is never longer than configured.
pub record IsSized (s : ClientMap) : Type 0 where
  pub primary : (length s.primary ≡ s.opt.primary_pool) ⊎ ((s.stop_flag ≡ true) × (s.primary ≡ []))
  pub secondary : length s.secondary ≤ s.opt.secondary_pool

-- What a taken client leaves as it was.
pub record Leaves (s t : ClientMap) : Type 0 where
  pub primary : length t.primary ≡ length s.primary
  pub secondary : length t.secondary ≤ length s.secondary
  pub startup : length t.startup ≤ length s.startup
  pub opt : t.opt ≡ s.opt
  pub stop_flag : t.stop_flag ≡ s.stop_flag
  pub startup_flag : t.startup_flag ≡ s.startup_flag

create_client-Leaves : (s : ClientMap) → Leaves s (create_client s).1
unfolding create_client take_startup take_secondary take_primary make_client
create_client-Leaves s = grind (arith, length-append {0})

pub upsert-Leaves : (id : ℕ) (s : ClientMap) → Leaves s (upsert id s).1
unfolding upsert upsert_commit
upsert-Leaves id s = ground (arith, create_client-Leaves s)

-- An empty list is one of length 0.
nil_of_length : (xs : List ℕ) → length xs ≡ 0 → xs ≡ []
nil_of_length [] h = refl
nil_of_length (x ∷ xs) h = absurd (omega arith)

Leaves-IsSized : {s t : ClientMap} → Leaves s t → IsSized s → IsSized t
Leaves-IsSized {s} {t} l v = ground (
  arith,
  l.primary,
  nil_of_length t.primary,
  ap (λ (c : Config). c.primary_pool) l.opt,
  ap (λ (c : Config). c.secondary_pool) l.opt,
)

step-IsSized : (op : Op) (s : ClientMap) → IsSized s → IsSized (step op s).0
unfolding step create reconfigure_and_start stop reg_io unreg_io perform_io free release
step-IsSized (reconfigures opt) s v = record {
  primary =
      inl
        (rw (filled_primary_lem opt s) (length-range (s.next + length s.clients) opt.primary_pool));
  secondary = omega arith;
}
step-IsSized stopped s v = record { primary = inr (refl, refl); secondary = omega arith }
step-IsSized (creates id) s v = Leaves-IsSized (upsert-Leaves id s) v
step-IsSized (regs id holder) s v = ground (arith, Leaves-IsSized (upsert-Leaves id s) v)
step-IsSized (unregs id) s v = ground (arith, length-append s.secondary (find id s ∷ []))
step-IsSized (sends d id handler) s v = ground (arith, Leaves-IsSized (upsert-Leaves id s) v)
step-IsSized (frees cli) s v = ground (arith, length-append s.secondary (cli ∷ []))

run_from-IsSized : (ops : List Op) (s : ClientMap) → IsSized s → IsSized (run ops s).0
unfolding run
run_from-IsSized [] s v = v
run_from-IsSized (op ∷ ops) s v = run_from-IsSized ops (step op s).0 (step-IsSized op s v)

-- After any history of a map whose first options ask for no primary pool, as the default ones do,
-- the primary pool has its configured length, but for a map that is stopped, where it is empty; and
-- the secondary pool is no longer than configured.
pub run-IsSized : (c : Config) (ops : List Op) → c.primary_pool ≡ 0 → IsSized (run ops (init c)).0
unfolding init
run-IsSized c ops h =
    run_from-IsSized ops (init c) (record { primary = inl (omega arith); secondary = omega arith })

step_startup :
    (op : Op) (s : ClientMap)
    → s.startup_flag ≡ false
    → ((step op s).0.startup_flag ≡ false) × (length (step op s).0.startup ≤ length s.startup)
unfolding step create reconfigure_and_start stop reg_io unreg_io perform_io free release
step_startup (reconfigures opt) s h = (refl, rw (filled_startup_lem opt s) (rw h (omega arith)))
step_startup stopped s h = ground arith
step_startup (creates id) s h = ground (arith, upsert-Leaves id s)
step_startup (regs id holder) s h = ground (arith, upsert-Leaves id s)
step_startup (unregs id) s h = ground arith
step_startup (sends d id handler) s h = ground (arith, upsert-Leaves id s)
step_startup (frees cli) s h = ground arith

run_from_startup :
    (ops : List Op) (s : ClientMap)
    → s.startup_flag ≡ false
    → length (run ops s).0.startup ≤ length s.startup
unfolding run
run_from_startup [] s h = omega arith
run_from_startup (op ∷ ops) s h =
    omega (arith, step_startup op s h, run_from_startup ops (step op s).0 (step_startup op s h).0)

first_fill :
    (c opt : Config)
    → let s = (reconfigure_and_start opt (init c)).0 in
      (length s.startup ≡ opt.startup_pool) × (s.startup_flag ≡ false)
unfolding reconfigure_and_start init
first_fill c opt =
    (rw (filled_startup_lem opt (unfold init in init c)) (length-range _ opt.startup_pool), refl)

-- The startup pool is filled once: the first configuration of a new map makes it as long as asked
-- for, and no later call, another configuration included, makes it longer.
pub startup_once :
    (c opt : Config) (ops : List Op)
    → let s = (reconfigure_and_start opt (init c)).0 in
      (length s.startup ≡ opt.startup_pool) × (length (run ops s).0.startup ≤ opt.startup_pool)
startup_once c opt ops =
    let s = (reconfigure_and_start opt (init c)).0 in
    let filled : (length s.startup ≡ opt.startup_pool) × (s.startup_flag ≡ false) =
      first_fill c opt in
    (filled.0, omega (arith, filled, run_from_startup ops s filled.1))
