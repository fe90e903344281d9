-- ===== src/Device.antt =====
-- crates/procnote-sync: a workspace on a device, and the server that it syncs with.
pub mod Monad
pub mod Engine
pub mod Workspace
mod Examples
