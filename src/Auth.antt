-- ===== src/Auth.antt =====
-- internal/auth: what is signed, how signatures and clocks are checked, and the encodings of keys.
pub mod SigningInput
pub mod Crypto
pub mod Verify
pub mod Skew
pub mod Keys
