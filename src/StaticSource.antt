-- ===== src/StaticSource.antt =====
-- internal/staticsources/handler.go: the loop that keeps the source of a path running.
pub mod Loop
pub mod Running
