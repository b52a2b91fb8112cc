-- ===== src/Conf.antt =====
-- internal/conf/path.go: the configuration of paths, and how a name finds its own.
pub mod PathConf
pub mod Flags
pub mod Names
pub mod Find
