-- ===== src/Server.antt =====
-- package/server/: the servers, whose parts are the modules below.
pub mod Connection
pub mod Lives
pub mod Tcp
pub mod Udp
mod Tests
