-- ===== src/Client/Map/Steps.antt =====
-- What each operation of client_tcp_map.cpp does to the clients that are held.
use mathlib.Core.List.{append-nil}
use wfc_io.Prelude.{
  ℕ, ◌+◌, ◌≤◌, ◌<◌, ◌≡◌, refl, inl, inr, some, List, [], ◌∷◌, ◌++◌, map, arith, length, count,
  count-append, Bool-cases, ◌==◌, if◌then◌else◌,
}
use wfc_io.Prelude.Dict.{values, lookup, count-erase}
use wfc_io.Iface.{DataPtr, WeakPtr, Handler, Call}
use wfc_io.Client.Options.{Config}
use wfc_io.Client.Map.Fill.{
  fill_lem, renew, values-renew, range, count-range_below, count-range_above, count-range-le,
}
use wfc_io.Client.Map.{
  ClientMap, Event, starts, calls, null, find, upsert, create, reg_io, release, unreg_io,
  perform_io, stop, stop_all_clients, renewed, filled_primary, filled_startup,
  reconfigure_and_start, wrap_shutdown,
}
use wfc_io.Client.Map.Ownership.{
  holds, started, stopped, Inv, Grows, Grows-refl, Grows-trans, started-append, stopped-append,
  started-map_stops, stopped-map_stops, started-map_starts, stopped-map_starts,
}
use wfc_io.Client.Map.Create.{find-lookup, upsert-Grows}

-- An operation: the state and the events after it.
abbrev pub Keeps : ClientMap → ClientMap × List Event → Type 0
Keeps s r = Grows s r.1 r.0

Grows-call :
    {s t : ClientMap} (es : List Event) (c : Call) → Grows s es t → Grows s (es ++ calls c ∷ []) t
Grows-call {s} {t} es c g = Grows-trans es (calls c ∷ []) g (record {
  balance = λ d. refl;
  once = λ d. omega arith;
  above = λ d h. refl;
  below = λ d h. refl;
  grows = omega arith;
})

pub reg_io-Grows :
    (id : ℕ) (holder : WeakPtr) (s : ClientMap) → Inv s → Keeps s (reg_io id holder s)
unfolding reg_io
reg_io-Grows id holder s v =
    let g = upsert-Grows id s v in ground (arith, g, Grows-refl s, Grows-call _ _ g)

release-Grows :
    (cli id : ℕ) (s : ClientMap) → lookup id s.clients ≡ some cli → Keeps s (release cli id s)
unfolding release
release-Grows cli id s found = record {
  balance =
      λ c. ground (arith, count-erase c id cli s.clients, count-append c s.secondary (cli ∷ []));
  once = λ c. ground arith;
  above = λ c h. ground arith;
  below = λ c h. ground arith;
  grows = ground arith;
}

pub unreg_io-Grows : (id : ℕ) (s : ClientMap) → Keeps s (unreg_io id s)
unfolding unreg_io
unreg_io-Grows id s = elim (Bool-cases (find id s == null)) [
  | inl none_there ↦ rw none_there (ground (arith, Grows-refl s))
  | inr there ↦ rw there (
      ground
        (arith, Grows-refl s, release-Grows (find id s) id s (find-lookup id s (ground arith))))
]

pub perform_io-Grows :
    (d : DataPtr) (id : ℕ) (handler : Handler) (s : ClientMap)
    → Inv s
    → Keeps s (perform_io d id handler s)
unfolding perform_io create
perform_io-Grows d id handler s v =
    let g = upsert-Grows id s v in
    ground (
      arith,
      Grows-refl s,
      Grows-call _ (Call.performs (upsert id s).0 d id handler) g,
      Grows-call _ (Call.performs (find id s) d id handler) (Grows-refl s),
    )

pub stop_all_clients-stopped : (c : ℕ) (s : ClientMap) → stopped c (stop_all_clients s) ≡ holds c s
unfolding stop_all_clients
stop_all_clients-stopped c s = omega (
  arith,
  stopped-map_stops c (values s.clients ++ s.primary ++ s.secondary ++ s.startup),
  count-append c (values s.clients ++ s.primary ++ s.secondary) s.startup,
  count-append c (values s.clients ++ s.primary) s.secondary,
  count-append c (values s.clients) s.primary,
)

pub stop_all_clients-started : (c : ℕ) (s : ClientMap) → started c (stop_all_clients s) ≡ 0
unfolding stop_all_clients
stop_all_clients-started c s =
    started-map_stops c (values s.clients ++ s.primary ++ s.secondary ++ s.startup)

pub stop-Grows : (s : ClientMap) → Keeps s (stop s)
unfolding stop
stop-Grows s = record {
  balance = λ c. omega (arith, stop_all_clients-stopped c s, stop_all_clients-started c s);
  once = λ c. omega (arith, stop_all_clients-started c s);
  above = λ c h. stop_all_clients-started c s;
  below = λ c h. stop_all_clients-started c s;
  grows = omega arith;
}

-- The closed forms of the two filling loops.
pub filled_primary_lem :
    (opt : Config) (s : ClientMap)
    → let n = s.next + length s.clients in
      filled_primary opt s ≡ record {
        pool = range n opt.primary_pool;
        created = values (renew s.next s.clients) ++ range n opt.primary_pool;
        next = n + opt.primary_pool;
      }
unfolding filled_primary renewed
filled_primary_lem opt s = fill_lem opt.primary_pool opt.primary_pool (renewed s) (omega arith)

abbrev pub startup_count : Config → ClientMap → ℕ
startup_count opt s = if s.startup_flag then opt.startup_pool else 0

pub filled_startup_lem :
    (opt : Config) (s : ClientMap)
    → let f = filled_primary opt s in
      filled_startup opt s ≡ record {
        pool = range f.next (startup_count opt s);
        created = f.created ++ range f.next (startup_count opt s);
        next = f.next + startup_count opt s;
      }
unfolding filled_startup
filled_startup_lem opt s =
    let f = record (filled_primary opt s) { pool = [] } in
    ground (
      arith,
      fill_lem opt.startup_pool opt.startup_pool f (omega arith),
      append-nil (filled_primary opt s).created,
    )

module _ (opt : Config) (s : ClientMap) where
  filled-created :
      (c : ℕ)
      → count c (filled_startup opt s).created
        ≡ count c (values (renew s.next s.clients))
          + count c (filled_primary opt s).pool
          + count c (filled_startup opt s).pool
  filled-created c =
      rw (filled_startup_lem opt s, filled_primary_lem opt s)
        (omega (
          arith,
          count-append c (values (renew s.next s.clients))
              (range (s.next + length s.clients) opt.primary_pool),
          count-append c
              (values (renew s.next s.clients)
                ++ range (s.next + length s.clients) opt.primary_pool)
              (range (s.next + length s.clients + opt.primary_pool) (startup_count opt s)),
        ))

  -- All that was held is stopped, and what is started is what is held afterwards.
  pub reconfigure-started :
      (c : ℕ)
      → let r = reconfigure_and_start opt s in
        (started c r.1 ≡ holds c r.0) × (stopped c r.1 ≡ holds c s)
  unfolding reconfigure_and_start
  reconfigure-started c =
      let news =
        map {B = Event} (λ cli. starts cli (wrap_shutdown opt)) (filled_startup opt s).created in
      omega (
        arith,
        started-append c (stop_all_clients s) news,
        stopped-append c (stop_all_clients s) news,
        started-map_starts c (wrap_shutdown opt) (filled_startup opt s).created,
        stopped-map_starts c (wrap_shutdown opt) (filled_startup opt s).created,
        stop_all_clients-stopped c s,
        stop_all_clients-started c s,
        filled-created c,
      )

  -- The numbers of the new clients run from `s.next` up.
  filled_range :
      (c : ℕ)
      → (count c (filled_startup opt s).created ≤ 1)
        × (c < s.next → count c (filled_startup opt s).created ≡ 0)
        × ((filled_startup opt s).next ≤ c → count c (filled_startup opt s).created ≡ 0)
        × (s.next ≤ (filled_startup opt s).next)
  filled_range c =
      let l = length s.clients in
      let n = s.next + l in
      let m = n + opt.primary_pool in
      rw (filled_startup_lem opt s, filled_primary_lem opt s, values-renew)
        (grind (arith, count-append, count-range_below, count-range_above, count-range-le))

  reconfigure-created :
      (c : ℕ)
      → let r = reconfigure_and_start opt s in
        (started c r.1 ≡ count c (filled_startup opt s).created)
        × (r.0.next ≡ (filled_startup opt s).next)
  unfolding reconfigure_and_start
  reconfigure-created c =
      let opt' = wrap_shutdown opt in
      let created = (filled_startup opt s).created in
      omega (
        arith,
        started-append c (stop_all_clients s) (map {B = Event} (λ cli. starts cli opt') created),
        started-map_starts c opt' created,
        stop_all_clients-started c s,
      )

  pub reconfigure-Grows : Keeps s (reconfigure_and_start opt s)
  reconfigure-Grows = record {
    balance = λ c. omega (arith, reconfigure-started c);
    once = λ c. omega (arith, reconfigure-created c, (filled_range c).0);
    above = λ c h. omega (arith, reconfigure-created c, (filled_range c).1 h);
    below = λ c h.
        omega
          (arith, reconfigure-created c, (filled_range c).2 (omega (arith, reconfigure-created c)));
    grows = omega (arith, reconfigure-created 0, (filled_range 0).3);
  }
