-- ===== src/Server.antt =====
-- server/: the HTTP/1.1 pipeline over one connection.
pub mod Stream
pub mod Body
pub mod Status
pub mod Head
pub mod Pipeline
pub mod Writer
mod Tests
mod Runs
pub mod Bind
pub mod Lifecycle
pub mod Events
mod Checks
