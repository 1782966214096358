-- ===== src/Client/Map/History.antt =====
-- Histories of a `client_tcp_map`: any sequence of its public operations.
use wfc_io.Prelude.{ℕ, ◌+◌, ◌≤◌, ◌≡◌, refl, List, [], ◌∷◌, arith}
use wfc_io.Prelude.Dict.{From, erase-From}
use wfc_io.Client.Options.{Config}
use wfc_io.Client.Map.{
  ClientMap, Op, reconfigures, stopped, creates, regs, unregs, sends, frees, init, create, reg_io,
  unreg_io, perform_io, release, free, stop, reconfigure_and_start, step, run,
}
use wfc_io.Client.Map.Fill.{renew-From}
use wfc_io.Client.Map.Ownership.{holds, Inv, Grows, Grows-refl, Grows-trans, Grows-Inv}
use wfc_io.Client.Map.Ownership
use wfc_io.Client.Map.Create.{upsert-Grows, upsert-From}
use wfc_io.Client.Map.Steps.{
  Keeps, reg_io-Grows, unreg_io-Grows, perform_io-Grows, stop-Grows, reconfigure-Grows,
}

-- `free` takes a client of the caller's; nothing in the package calls it.
abbrev pub IsInternal : Op → Type 0
IsInternal (frees cli) = ⊥
IsInternal (reconfigures opt) = Unit
IsInternal _ = Unit

abbrev pub AllInternal : List Op → Type 0
AllInternal [] = Unit
AllInternal (op ∷ ops) = IsInternal op × AllInternal ops

pub step-Grows : (op : Op) (s : ClientMap) → IsInternal op → Inv s → Keeps s (step op s)
unfolding step create
step-Grows (reconfigures opt) s i v = reconfigure-Grows opt s
step-Grows stopped s i v = stop-Grows s
step-Grows (creates id) s i v = upsert-Grows id s v
step-Grows (regs id holder) s i v = reg_io-Grows id holder s v
step-Grows (unregs id) s i v = unreg_io-Grows id s
step-Grows (sends d id handler) s i v = perform_io-Grows d id handler s v
step-Grows (frees cli) s i v = absurd i

-- The keys of the map stay in order.
step-From : (op : Op) (s : ClientMap) → From 0 s.clients → From 0 (step op s).0.clients
unfolding step create reconfigure_and_start stop reg_io unreg_io perform_io free release
step-From (reconfigures opt) s f = renew-From s.next 0 s.clients f
step-From stopped s f = tt
step-From (creates id) s f = upsert-From id s f
step-From (regs id holder) s f = ground (arith, upsert-From id s f)
step-From (unregs id) s f = ground (arith, erase-From id 0 s.clients f)
step-From (sends d id handler) s f = ground (arith, upsert-From id s f)
step-From (frees cli) s f = ground arith

pub step-Inv : (op : Op) (s : ClientMap) → IsInternal op → Inv s → Inv (step op s).0
step-Inv op s i v = Grows-Inv (step op s).1 (step-Grows op s i v) (step-From op s v.sorted) v

pub init-Inv : (c : Config) → Inv (init c)
unfolding init
init-Inv c = record {
  single = λ c. omega arith;
  fresh = λ c h. refl;
  nonnull = refl;
  positive = omega arith;
  sorted = tt;
}

run-Grows : (ops : List Op) (s : ClientMap) → AllInternal ops → Inv s → Keeps s (run ops s)
unfolding run
run-Grows [] s i v = Grows-refl s
run-Grows (op ∷ ops) s i v =
    Grows-trans (step op s).1 (run ops (step op s).0).1 (step-Grows op s i.0 v)
      (run-Grows ops (step op s).0 i.1 (step-Inv op s i.0 v))

run_from-Inv : (ops : List Op) (s : ClientMap) → AllInternal ops → Inv s → Inv (run ops s).0
unfolding run
run_from-Inv [] s i v = v
run_from-Inv (op ∷ ops) s i v = run_from-Inv ops (step op s).0 i.1 (step-Inv op s i.0 v)

-- After any history of calls other than `free` of a map that is new, no client is held at two
-- places, the null pointer is held nowhere, the clients that are held have been made, and the keys
-- of the map are in order.
pub run-Inv : (c : Config) (ops : List Op) → AllInternal ops → Inv (run ops (init c)).0
run-Inv c ops i = run_from-Inv ops (init c) i (init-Inv c)

-- No client leaks: over any history of calls other than `free` of a map that is new, each client is
-- started at most once, and the starts are as many as the stops and the places that hold it.
pub run_balance :
    (c : Config) (ops : List Op) (cli : ℕ)
    → AllInternal ops
    → let (s, es) = run ops (init c) in
      (Ownership.started cli es ≤ 1)
      × (Ownership.started cli es ≡ Ownership.stopped cli es + holds cli s)
run_balance c ops cli i =
    let g = run-Grows ops (init c) i (init-Inv c) in
    (g.once cli, unfold init in omega (arith, g.balance cli))
