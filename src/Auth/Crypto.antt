-- ===== src/Auth/Crypto.antt =====
-- The signature schemes of the program, as interfaces: crypto/ed25519 and circl's mldsa65.
use passage.Base.{ℕ, Bytes, Option, Bool}

pub data AuthError : Type 0 where
  unknown_client bad_signature clock_skew service_not_allow bad_key_format : AuthError
  pq_unknown_algorithm pq_required pq_bad_signature : AuthError

-- crypto/ed25519. Keys and signatures are byte slices.
pub record Ed25519 : Type 0 where
  pub new_key_from_seed : Bytes → Bytes
  pub seed : Bytes → Bytes
  pub sign : Bytes → Bytes → Bytes
  pub verify : Bytes → Bytes → Bytes → Bool

abbrev pub public_key_size : ℕ
public_key_size = 32

abbrev pub private_key_size : ℕ
private_key_size = 64

abbrev pub seed_size : ℕ
seed_size = 32

abbrev pub signature_size : ℕ
signature_size = 64

-- github.com/cloudflare/circl/sign/mldsa/mldsa65. `sign_to` is SignTo without randomness.
pub record Mldsa65 (PublicKey PrivateKey : Type 0) : Type 0 where
  pub signature_size : ℕ
  pub public_key_size : ℕ
  pub new_key_from_seed : Bytes → PublicKey × PrivateKey
  pub unmarshal_binary : Bytes → Option PublicKey
  pub marshal_binary : PublicKey → Bytes
  pub sign_to : PrivateKey → Bytes → Bytes → Option Bytes
  pub verify : PublicKey → Bytes → Bytes → Bytes → Bool
