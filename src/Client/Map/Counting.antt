-- ===== src/Client/Map/Counting.antt =====
-- What `client_tcp_map::get_stat` of client_tcp_map.cpp counts.
use mathlib.Core.List.{foldl}
use wfc_io.Prelude.{ℕ, ◌+◌, ◌≡◌, List, [], ◌∷◌, arith, total}
use wfc_io.Prelude.Dict.{values}
use wfc_io.Stat.{ConnectionStat}
use wfc_io.Client.Map.{ClientMap, get_stat}

module _ (plus : ConnectionStat → ConnectionStat → ConnectionStat)
    (adds : (a b : ConnectionStat)
      → (plus a b).connection_count ≡ a.connection_count + b.connection_count)
    (stat_of : ℕ → ConnectionStat) where
  foldl-count :
      (clis : List ℕ) (start : ConnectionStat)
      → (foldl (λ stat cli. plus stat (stat_of cli)) start clis).connection_count
        ≡ start.connection_count + total (λ cli. (stat_of cli).connection_count) clis
  foldl-count [] start = omega arith
  foldl-count (cli ∷ clis) start =
      omega (arith, foldl-count clis (plus start (stat_of cli)), adds start (stat_of cli))

  -- The connections of the clients that serve a source are added up, and those of the pools are
  -- left out, if the operator of the library adds the numbers of connections.
  pub get_stat-count :
      (empty_stat : ConnectionStat) (s : ClientMap)
      → (get_stat plus empty_stat stat_of s).connection_count
        ≡ total (λ cli. (stat_of cli).connection_count) (values s.clients)
  unfolding get_stat
  get_stat-count empty_stat s =
      omega (arith, foldl-count (values s.clients) (record empty_stat { connection_count = 0 }))
