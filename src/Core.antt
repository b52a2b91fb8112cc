-- ===== src/Core.antt =====
-- internal/core/core.go: the components of the program, created from a configuration and, on a
-- reload, closed and created anew as far as they depend on what has changed.
pub mod Conf
pub mod Closes
pub mod Settings
pub mod Servers
pub mod State
pub mod Create
pub mod Reload
pub mod Fresh
pub mod Same
pub mod Current
pub mod Renewal
pub mod Start
pub mod Stop
pub mod Logging
pub mod Upkeep
pub mod Runs
pub mod Restart
pub mod Missed
