-- ===== src/Tunnel.antt =====
-- internal/tunnel: the server and the client of the tunnel.
pub mod Server
pub mod Handshake
pub mod Cidr
pub mod Users
pub mod Backoff
pub mod Client
pub mod Tls
pub mod Sessions
pub mod Admission
pub mod Control
pub mod Run
pub mod Proxy
pub mod Relay
