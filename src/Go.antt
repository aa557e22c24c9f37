-- ===== src/Go.antt =====
-- What the program uses of the Go standard library, one module for each package.
pub mod Endian
pub mod Io
pub mod Path
pub mod Time
pub mod Files
pub mod Disk
pub mod HostPort
pub mod Hex
pub mod Quote
pub mod Channel
pub mod Sort
