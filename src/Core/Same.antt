-- ===== src/Core/Same.antt =====
-- What closeResources compares is all that createResources reads: if a component is not closed, it
-- would be created with the same settings again, as far as the theorems say.
pub mod Managers
pub mod Servers
pub mod Connections
pub use Managers.*
pub use Servers.*
pub use Connections.*
