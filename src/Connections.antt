-- ===== src/Connections.antt =====
-- gateway/connections: the connection manager and the state of each connection.
pub mod Match
pub mod Counting
pub mod State
pub mod Manager
pub mod Loop
mod Examples
