-- ===== src/Stat.antt =====
-- What client_tcp.cpp, server_tcp.cpp and their configurations have in common: the nine meters of a
-- set of TCP connections, and the separators of the messages.
use Prim.Native.String.{◌++◌ as str_append}
use text.Mathlib.Text.{◌==◌ as str_eq}
use wfc_io.Prelude.{List, [], ◌∷◌, ℕ, String, if◌then◌else◌}

-- `iow::io::connection_stat`, of the fields that are read.
pub record BufferStat : Type 0 where
  pub chunk_count : ℕ
  pub chunk_count_capacity : ℕ
  pub total_size : ℕ
  pub total_capacity : ℕ

pub record ConnectionStat : Type 0 where
  pub connection_count : ℕ
  pub reader : BufferStat
  pub writer : BufferStat

-- The suffixes of the meters' names: `client_tcp_stat` and `server_tcp_stat`.
pub record MeterNames : Type 0 where
  pub tracking_ms : ℕ
  pub connections : String
  pub rchunk_count : String
  pub rchunk_capacity : String
  pub rtotal_size : String
  pub rtotal_capacity : String
  pub wchunk_count : String
  pub wchunk_capacity : String
  pub wtotal_size : String
  pub wtotal_capacity : String

-- If a separator is empty it is set to the end of a line.
abbrev pub or_crlf : String → String
or_crlf sep = if str_eq sep "" then "\r\n" else sep

-- The names of the meters, with the name of the object before.
abbrev pub meter_names : String → MeterNames → List String
meter_names name n =
    str_append name n.connections
    ∷ str_append name n.rchunk_count
    ∷ str_append name n.rchunk_capacity
    ∷ str_append name n.rtotal_size
    ∷ str_append name n.rtotal_capacity
    ∷ str_append name n.wchunk_count
    ∷ str_append name n.wchunk_capacity
    ∷ str_append name n.wtotal_size
    ∷ str_append name n.wtotal_capacity
    ∷ []

-- What the timer's closure writes to the meters, in their order.
abbrev pub meter_values : ConnectionStat → List ℕ
meter_values s =
    s.connection_count ∷ s.reader.chunk_count ∷ s.reader.chunk_count_capacity ∷ s.reader.total_size
    ∷ s.reader.total_capacity ∷ s.writer.chunk_count ∷ s.writer.chunk_count_capacity
    ∷ s.writer.total_size ∷ s.writer.total_capacity ∷ []
