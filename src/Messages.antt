-- ===== src/Messages.antt =====
-- src/messages.rs: the messages of the Postgres protocol that pgcat reads, rewrites and writes.
pub mod Reply
pub mod Parse
pub mod Bind
pub mod Names
pub mod Target
pub mod ErrorFields
pub mod Startup
