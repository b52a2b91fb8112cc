-- ===== src/Manager.antt =====
-- internal/core/path_manager.go: the map of paths, and the loads of new configurations.
pub mod Update
pub mod State
pub mod Handlers
pub mod Reload
pub mod Maps
pub mod Told
pub mod Invariant
pub mod Keyed
pub mod Requests
pub mod Reloading
pub mod Served
pub mod Statics
pub mod Loop
