-- ===== src/Net.antt =====
-- net/: the TCP connection.
pub mod Conn
pub mod Listener
