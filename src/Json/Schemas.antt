-- ===== src/Json/Schemas.antt =====
-- The member lists of package/*/*/*_json.hpp.
use wfc_io.Prelude.{ℕ, Bool, true, false, Option, List, [], ◌∷◌, String}
use wfc_io.Json.{plain, interval, raw, pointer, array, member, base, Schema}
use wfc_io.Stat.{MeterNames}
use wfc_io.Client.Options.{Config}
use wfc_io.Server.Tcp.{ServerConfig}
use wfc_io.Server.Udp.{UdpConfig}
use wfc_io.Server.Connection.{ConnectionOptions}
use wfc_io.Hub.{HubConfig}
use wfc_io.Queue.{QueueConfig}
use wfc_io.Statistics.{StatisticsConfig, StatisticsStat}
use wfc_io.Broker.{Rule, BrokerConfig}
use wfc_io.Tank.{TankOptions}

-- `client_tcp_config_json`.
abbrev pub client_tcp_config : Schema Config
client_tcp_config = record {
  members =
      member "startup_pool" plain ℕ (λ c. c.startup_pool) (λ v c. record c { startup_pool = v })
      ∷ member "primary_pool" plain ℕ (λ c. c.primary_pool) (λ v c. record c { primary_pool = v })
      ∷ member "secondary_pool" plain ℕ (λ c. c.secondary_pool)
          (λ v c. record c { secondary_pool = v })
      ∷ member "abort_if_error" plain Bool (λ c. c.abort_if_error)
          (λ v c. record c { abort_if_error = v })
      ∷ member "rn" plain Bool (λ c. c.rn) (λ v c. record c { rn = v })
      ∷ member "keep_alive" plain Bool (λ c. c.keep_alive) (λ v c. record c { keep_alive = v })
      ∷ base "iow::ip::tcp::client::options_json"
      ∷ [];
  strict_mode = true;
}

-- `client_tcp_stat_json`.
abbrev pub client_tcp_stat : Schema MeterNames
client_tcp_stat = record {
  members =
      member "tracking_ms" interval ℕ (λ c. c.tracking_ms) (λ v c. record c { tracking_ms = v })
      ∷ member "connections" plain String (λ c. c.connections) (λ v c. record c { connections = v })
      ∷ member "rtotal_size" plain String (λ c. c.rtotal_size) (λ v c. record c { rtotal_size = v })
      ∷ member "rtotal_capacity" plain String (λ c. c.rtotal_capacity)
          (λ v c. record c { rtotal_capacity = v })
      ∷ member "rchunk_count" plain String (λ c. c.rchunk_count)
          (λ v c. record c { rchunk_count = v })
      ∷ member "rchunk_count_capacity" plain String (λ c. c.rchunk_capacity)
          (λ v c. record c { rchunk_capacity = v })
      ∷ member "wtotal_size" plain String (λ c. c.wtotal_size) (λ v c. record c { wtotal_size = v })
      ∷ member "wtotal_capacity" plain String (λ c. c.wtotal_capacity)
          (λ v c. record c { wtotal_capacity = v })
      ∷ member "wchunk_count" plain String (λ c. c.wchunk_count)
          (λ v c. record c { wchunk_count = v })
      ∷ member "wchunk_count_capacity" plain String (λ c. c.wchunk_capacity)
          (λ v c. record c { wchunk_capacity = v })
      ∷ [];
  strict_mode = true;
}

-- `connection_options_json`.
abbrev pub connection_options : Schema ConnectionOptions
connection_options = record {
  members =
      member "direct_mode" plain Bool (λ c. c.direct_mode) (λ v c. record c { direct_mode = v })
      ∷ base "iow::ip::tcp::connection::options_json"
      ∷ [];
  strict_mode = true;
}

-- `server_tcp_config_json`; the base is made of the descriptions of the library, with
-- `connection_options_json`.
abbrev pub server_tcp_config : Schema ServerConfig
server_tcp_config = record {
  members =
      member "target" plain String (λ c. c.target) (λ v c. record c { target = v })
      ∷ member "rn" plain Bool (λ c. c.rn) (λ v c. record c { rn = v })
      ∷ member "keep_alive" plain Bool (λ c. c.keep_alive) (λ v c. record c { keep_alive = v })
      ∷ base "server_json"
      ∷ [];
  strict_mode = true;
}

-- `server_tcp_stat_json`; buffer sizes are called total sizes in the record.
abbrev pub server_tcp_stat : Schema MeterNames
server_tcp_stat = record {
  members =
      member "tracking_ms" interval ℕ (λ c. c.tracking_ms) (λ v c. record c { tracking_ms = v })
      ∷ member "connections" plain String (λ c. c.connections) (λ v c. record c { connections = v })
      ∷ member "rbuffer_size" plain String (λ c. c.rtotal_size)
          (λ v c. record c { rtotal_size = v })
      ∷ member "rbuffer_capacity" plain String (λ c. c.rtotal_capacity)
          (λ v c. record c { rtotal_capacity = v })
      ∷ member "rchunk_count" plain String (λ c. c.rchunk_count)
          (λ v c. record c { rchunk_count = v })
      ∷ member "rchunk_capacity" plain String (λ c. c.rchunk_capacity)
          (λ v c. record c { rchunk_capacity = v })
      ∷ member "wbuffer_size" plain String (λ c. c.wtotal_size)
          (λ v c. record c { wtotal_size = v })
      ∷ member "wbuffer_capacity" plain String (λ c. c.wtotal_capacity)
          (λ v c. record c { wtotal_capacity = v })
      ∷ member "wchunk_count" plain String (λ c. c.wchunk_count)
          (λ v c. record c { wchunk_count = v })
      ∷ member "wchunk_capacity" plain String (λ c. c.wchunk_capacity)
          (λ v c. record c { wchunk_capacity = v })
      ∷ [];
  strict_mode = true;
}

-- `server_udp_config_json`; the base is `iow::ip::udp::server::options_json`.
abbrev pub server_udp_config : Schema UdpConfig
server_udp_config = record {
  members =
      member "target" plain String (λ c. c.target_name) (λ v c. record c { target_name = v })
      ∷ member "rn" plain Bool (λ c. c.rn) (λ v c. record c { rn = v })
      ∷ base "server_json"
      ∷ [];
  strict_mode = true;
}

-- `hub_config_json`.
abbrev pub hub_config : Schema HubConfig
hub_config = record {
  members = member "target" plain String (λ c. c.target) (λ v c. record c { target = v }) ∷ [];
  strict_mode = true;
}

-- `queue_config_json`. The name of the workflow is read as raw text.
abbrev pub queue_config : Schema QueueConfig
queue_config = record {
  members =
      member "target" plain String (λ c. c.target) (λ v c. record c { target = v })
      ∷ member "callback_queue" plain Bool (λ c. c.callback_queue)
          (λ v c. record c { callback_queue = v })
      ∷ member "callback_workflow" raw String (λ c. c.callback_workflow)
          (λ v c. record c { callback_workflow = v })
      ∷ [];
  strict_mode = false;
}

-- `statistics_config_json`.
abbrev pub statistics_config : Schema StatisticsConfig
statistics_config = record {
  members = member "target" plain String (λ c. c.target) (λ v c. record c { target = v }) ∷ [];
  strict_mode = true;
}

-- `statistics_stat_json`.
abbrev pub statistics_stat : Schema StatisticsStat
statistics_stat = record {
  members =
      member "tracking_ms" interval ℕ (λ c. c.tracking_ms) (λ v c. record c { tracking_ms = v })
      ∷ member "track_name" plain String (λ c. c.track_name) (λ v c. record c { track_name = v })
      ∷ member "time_name" plain String (λ c. c.time_name) (λ v c. record c { time_name = v })
      ∷ member "read_name" plain String (λ c. c.read_name) (λ v c. record c { read_name = v })
      ∷ member "write_name" plain String (λ c. c.write_name) (λ v c. record c { write_name = v })
      ∷ [];
  strict_mode = true;
}

-- `broker_config_json`, with that of a rule.
abbrev pub broker_rule : Schema Rule
broker_rule = record {
  members =
      member "target" plain String (λ c. c.target) (λ v c. record c { target = v })
      ∷ member "log" plain String (λ c. c.log) (λ v c. record c { log = v })
      ∷ member "regex" plain String (λ c. c.regex) (λ v c. record c { regex = v })
      ∷ [];
  strict_mode = true;
}

abbrev pub broker_config : Schema BrokerConfig
broker_config = record {
  members =
      member "target" plain String (λ c. c.target) (λ v c. record c { target = v })
      ∷ member "log" plain String (λ c. c.log) (λ v c. record c { log = v })
      ∷ member "rules" array (List Rule) (λ c. c.rules) (λ v c. record c { rules = v })
      ∷ [];
  strict_mode = true;
}

-- `tank_options_json`.
abbrev pub tank_options : Schema TankOptions
tank_options = record {
  members =
      member "enable_vars" plain Bool (λ c. c.enable_vars) (λ v c. record c { enable_vars = v })
      ∷ member "show_request" plain Bool (λ c. c.show_request)
          (λ v c. record c { show_request = v })
      ∷ member "show_response" plain Bool (λ c. c.show_response)
          (λ v c. record c { show_response = v })
      ∷ member "check_response" plain Bool (λ c. c.check_response)
          (λ v c. record c { check_response = v })
      ∷ member "jsonrpc_method" pointer (Option String) (λ c. c.jsonrpc_method)
          (λ v c. record c { jsonrpc_method = v })
      ∷ [];
  strict_mode = true;
}
