-- ===== src/Server.antt =====
-- src/server.rs: a connection to a Postgres server, as the pool lends it to clients.
pub mod Parameters
pub mod State
pub mod Recv
pub mod Query
pub mod Prepared
pub mod Checkin
