-- ===== src/Examples.antt =====
-- The theorems at concrete inputs.
mod Toy
mod Handshakes
mod Signing
mod KeyFiles
mod Configs
mod Sessions
mod Streams
mod Deployments
mod Refusals
mod Interleavings
mod Races
mod Clients
mod Generated
mod Links
mod Started
mod Settings
mod Strangers
mod Deployed
