-- ===== src/Config.antt =====
-- The configuration (internal/config/config.go): the readers of single variables in `Loader`, the
-- settings in `Settings`, the sections in `Sections`, `Load` in `Load`, and what a configuration that
-- loads is like in `Valid` and `Sound`.
pub mod Loader
pub mod Settings
pub mod Sections
pub mod Load
pub mod Valid
pub mod Sound
