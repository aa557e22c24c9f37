-- ===== src/QuickDocker.antt =====
-- internal/quickdocker: a deployment from one specification.
pub mod Spec
pub mod Load
pub mod Render
pub mod Compose
pub mod Cert
pub mod Generate
