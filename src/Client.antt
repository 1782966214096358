-- ===== src/Client.antt =====
-- package/client/client_tcp/: TCP clients, the map of them, and the component in front.
pub mod Options
pub mod Map
pub mod Adapter
pub mod System
pub mod Tcp
