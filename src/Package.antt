-- ===== src/Package.antt =====
-- package/io_package.cpp, package/*/*_module.cpp and package/*/*/*_multiton.cpp: the package that
-- wfc loads, its modules, and the components by which objects are made from a configuration. The
-- proofs are in the module below.
pub mod Naming
use text.Mathlib.Text.{◌==◌ as str_eq}
use wfc_io.Prelude.{
  ℕ, Bool, true, false, Option, none, some, List, [], ◌∷◌, ◌++◌, map, if◌then◌else◌, String,
}

-- The class of a component's objects: `wfc::instance<…>`, with its options and their JSON.
pub data Instance : Type 0 where
  server_tcp server_udp client_tcp queue broker hub tank_io statistics : Instance

-- `component_features`.
pub data Feature : Type 0 where
  enable_cpu disabled_workflow disabled_priority enable_tracking : Feature

-- `wfc::multiton`.
pub record Component : Type 0 where
  pub name : String
  pub class : Instance
  pub features : List Feature
  -- Whether the component has options for statistics.
  pub has_stat : Bool
  pub interface_name : String
  pub description : String

-- `wfc::component_list`; `none` is the description that the base class gives.
pub record Module : Type 0 where
  pub name : String
  pub components : List Component
  pub description : Option String

pub record Package : Type 0 where
  pub modules : List Module
  pub description : String
  pub show_order : ℕ

abbrev pub server_multiton : Component
server_multiton = record {
  name = "server-tcp";
  class = server_tcp;
  features = enable_cpu ∷ [];
  has_stat = true;
  interface_name = "";
  description = "TCP server";
}

abbrev pub server_udp_multiton : Component
server_udp_multiton = record {
  name = "server-udp";
  class = server_udp;
  features = enable_cpu ∷ disabled_workflow ∷ [];
  has_stat = false;
  interface_name = "";
  description = "UDP server";
}

abbrev pub client_multiton : Component
client_multiton = record {
  name = "client-tcp";
  class = client_tcp;
  features = [];
  has_stat = true;
  interface_name = "wfc::iinterface";
  description = "TCP client";
}

abbrev pub queue_multiton : Component
queue_multiton = record {
  name = "io-queue";
  class = queue;
  features = disabled_priority ∷ enable_tracking ∷ [];
  has_stat = false;
  interface_name = "wfc::iinterface";
  description = "Common queue of incoming/outgoing messages";
}

abbrev pub broker_multiton : Component
broker_multiton = record {
  name = "io-broker";
  class = broker;
  features = disabled_workflow ∷ disabled_priority ∷ [];
  has_stat = false;
  interface_name = "wfc::iinterface";
  description = "io broker of methods";
}

abbrev pub hub_multiton : Component
hub_multiton = record {
  name = "io-hub";
  class = hub;
  features = disabled_workflow ∷ [];
  has_stat = false;
  interface_name = "wfc::iinterface";
  description = "io hub of methods";
}

abbrev pub tank_multiton : Component
tank_multiton = record {
  name = "io-tank";
  class = tank_io;
  features = disabled_workflow ∷ [];
  has_stat = true;
  interface_name = "wfc::iinterface";
  description = "io tank of methods";
}

abbrev pub statistics_multiton : Component
statistics_multiton = record {
  name = "io-statistics";
  class = statistics;
  features = disabled_priority ∷ disabled_workflow ∷ enable_tracking ∷ [];
  has_stat = true;
  interface_name = "wfc::iinterface";
  description = "Common statistics of traffics incoming/outgoing messages";
}

abbrev pub server_module : Module
server_module = record {
  name = "server";
  components = server_multiton ∷ server_udp_multiton ∷ [];
  description = some "Server components.";
}

abbrev pub client_module : Module
client_module = record {
  name = "client";
  components = client_multiton ∷ [];
  description = some "Client components";
}

abbrev pub queue_module : Module
queue_module = record {
  name = "io-queue";
  components = queue_multiton ∷ [];
  description = some "Components for I/O queues";
}

abbrev pub broker_module : Module
broker_module = record { name = "io-broker"; components = broker_multiton ∷ []; description = none }

abbrev pub hub_module : Module
hub_module = record { name = "io-hub"; components = hub_multiton ∷ []; description = none }

abbrev pub tank_module : Module
tank_module = record { name = "io-tank"; components = tank_multiton ∷ []; description = none }

abbrev pub statistics_module : Module
statistics_module = record {
  name = "io-statistics";
  components = statistics_multiton ∷ [];
  description = some "Components for I/O statistics";
}

-- `enable_stat`: whether WFC_ENABLE_STAT is defined.
pub io_package : Bool → Package
io_package enable_stat = record {
  modules =
      server_module
      ∷ client_module
      ∷ queue_module
      ∷ broker_module
      ∷ hub_module
      ∷ tank_module
      ∷ (if enable_stat then statistics_module ∷ [] else []);
  description = "Package of IP/TCP and I/O modules";
  show_order = 500;
}

abbrev pub components_of : List Module → List Component
components_of [] = []
components_of (m ∷ ms) = m.components ++ components_of ms

abbrev pub find_component : String → List Component → Option Component
find_component name [] = none
find_component name (c ∷ cs) = if str_eq name c.name then some c else find_component name cs
