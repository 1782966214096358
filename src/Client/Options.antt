-- ===== src/Client/Options.antt =====
-- package/client/client_tcp/client_tcp_config.hpp: `client_tcp_config`, with those fields of its
-- base `iow::ip::tcp::client::options` that the package reads or writes.
use wfc_io.Prelude.{ℕ, Bool, true, false, String}

-- The closures that become `connection.shutdown_handler`.
pub data Shutdown : Type 0 where
  empty : Shutdown
  external : ℕ → Shutdown
  -- The closure of `client_tcp_map::reconfigure_and_start`.
  guarded : Shutdown → Shutdown
  -- The closure of `client_tcp_adapter::start`: the adapter, and the handler before it.
  leaving : ℕ → Shutdown → Shutdown

-- The closures that become `connection.input_handler`.
pub data Input : Type 0 where
  empty : Input
  external : ℕ → Input
  -- The closure of `client_tcp_adapter::start`.
  receiving : ℕ → Input

-- The closures that become `args.connect_handler`.
pub data Connect : Type 0 where
  empty : Connect
  external : ℕ → Connect
  -- The closure of `client_tcp_adapter::start`: the adapter, and the handler before it.
  joining : ℕ → Connect → Connect

pub record Config : Type 0 where
  pub rn : Bool
  pub keep_alive : Bool
  pub abort_if_error : Bool
  pub startup_pool : ℕ
  pub primary_pool : ℕ
  pub secondary_pool : ℕ
  -- The fields of the base that are used.
  pub addr : String
  pub port : String
  pub reader_sep : String
  pub writer_sep : String
  pub input_handler : Input
  pub connect_handler : Connect
  pub shutdown_handler : Shutdown
  -- Whether `args.delayed_handler` is the closure of `client_tcp::reconfigure_and_start_`, which
  -- posts to the common workflow.
  pub posts_delayed : Bool

-- The default values of the fields; the strings of the base are given.
unfoldable pub default_config : String → String → String → String → Config
default_config addr port reader_sep writer_sep = record {
  rn = true;
  keep_alive = true;
  abort_if_error = true;
  startup_pool = 1;
  primary_pool = 0;
  secondary_pool = 0;
  addr = addr;
  port = port;
  reader_sep = reader_sep;
  writer_sep = writer_sep;
  input_handler = Input.empty;
  connect_handler = Connect.empty;
  shutdown_handler = Shutdown.empty;
  posts_delayed = false;
}
