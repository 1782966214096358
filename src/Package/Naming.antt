-- ===== src/Package/Naming.antt =====
-- How the components of the package are found.
use wfc_io.Prelude.{◌≡◌, refl, Bool, true, false, Option, none, some, map, if◌then◌else◌, String}
use wfc_io.Json.{distinct}
use wfc_io.Package.{
  Instance, server_tcp, server_udp, client_tcp, queue, broker, hub, tank_io, statistics, Component,
  io_package, components_of, find_component,
}

-- The name by which a configuration asks for objects of a class.
abbrev pub name_of : Instance → String
name_of server_tcp = "server-tcp"
name_of server_udp = "server-udp"
name_of client_tcp = "client-tcp"
name_of queue = "io-queue"
name_of broker = "io-broker"
name_of hub = "io-hub"
name_of tank_io = "io-tank"
name_of statistics = "io-statistics"

-- Whether a class is built.
abbrev pub is_built : Bool → Instance → Bool
is_built enable_stat statistics = enable_stat
is_built enable_stat _ = true

abbrev pub class_of : Option Component → Option Instance
class_of none = none
class_of (some c) = some c.class

-- Each class of objects can be had by its name, and by no other name: the names of the components
-- and those of the modules differ, and the component that is found first by the name of a class
-- makes objects of that class. Without WFC_ENABLE_STAT there is no component for the statistics.
pub components_found :
    (enable_stat : Bool) (class : Instance)
    → let p = io_package enable_stat in
      (distinct (map (λ m. m.name) p.modules) ≡ true)
      × (distinct (map (λ c. c.name) (components_of p.modules)) ≡ true)
      × (class_of (find_component (name_of class) (components_of p.modules))
          ≡ (if is_built enable_stat class then some class else none))
unfolding io_package
components_found true server_tcp = (refl, refl, refl)
components_found true server_udp = (refl, refl, refl)
components_found true client_tcp = (refl, refl, refl)
components_found true queue = (refl, refl, refl)
components_found true broker = (refl, refl, refl)
components_found true hub = (refl, refl, refl)
components_found true tank_io = (refl, refl, refl)
components_found true statistics = (refl, refl, refl)
components_found false server_tcp = (refl, refl, refl)
components_found false server_udp = (refl, refl, refl)
components_found false client_tcp = (refl, refl, refl)
components_found false queue = (refl, refl, refl)
components_found false broker = (refl, refl, refl)
components_found false hub = (refl, refl, refl)
components_found false tank_io = (refl, refl, refl)
components_found false statistics = (refl, refl, refl)
