-- ===== src/Config.antt =====
-- internal/config/config.go: the two configuration files, their defaults and their validation.
pub mod Types
pub mod Server
pub mod Client
pub mod Load
