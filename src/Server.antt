-- ===== src/Server.antt =====
-- crates/procnote-server: executions in a database.
pub mod Postgres
pub mod Handlers
pub mod Repositories
mod Examples
