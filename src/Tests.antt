-- ===== src/Tests.antt =====
-- Concrete inputs for the theorems, and what the code does on them.
pub mod Data
pub mod Paths
pub mod Requests
pub mod Managers
pub mod Logins
pub mod Listings
pub mod Cores
pub mod Records
pub mod Playbacks
pub mod Sources
