-- ===== src/Core/Renewal.antt =====
-- A reload that succeeds brings every component up to date.
pub mod Managers
pub mod Servers
pub mod Whole
pub use Managers.*
pub use Servers.*
pub use Whole.*
