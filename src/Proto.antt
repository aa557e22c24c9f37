-- ===== src/Proto.antt =====
-- internal/proto: the messages of the control protocol and their framing.
pub mod Messages
pub mod Framing
