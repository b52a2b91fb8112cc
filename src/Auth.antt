-- ===== src/Auth.antt =====
-- internal/auth: who may do what. The state is the manager with its cached keys; a request is one
-- call of Authenticate.
pub mod State
pub mod Permissions
pub mod Users
pub mod Remote
