-- ===== src/Auth/Verify.antt =====
-- auth.Sign and auth.Verify of internal/auth/auth.go, auth.PQSign and auth.PQVerify of
-- internal/auth/pq.go.
pub mod Sound
use passage.Base.{
  ℕ, ◌==◌, ◌&&◌, Bool, not, List, [], ◌∷◌, length, Bytes, codes, Option, none, some, Result, ok,
  err, if◌then◌else◌,
}
use passage.Base.Int.{ℤ}
use passage.Auth.Crypto.{
  AuthError, bad_signature, pq_bad_signature, Ed25519, Mldsa65, signature_size, public_key_size,
}
use passage.Auth.SigningInput.{signing_input, pq_signing_input}
use passage.Proto.Messages.{pq_auth_label}

module _ (ed : Ed25519) where
  unfoldable pub sign : Bytes → Bytes → Bytes → Bytes → ℤ → Bytes
  sign priv nonce exporter client_id client_time =
      ed.sign priv (signing_input nonce exporter client_id client_time)

  -- for _, pub := range pubs { ... }
  unfoldable pub verify_any : List Bytes → Bytes → Bytes → Result AuthError (Unit {0})
  verify_any [] msg sig = err bad_signature
  verify_any (pk ∷ pubs) msg sig =
      if (length pk == public_key_size) && ed.verify pk msg sig
      then ok tt
      else verify_any pubs msg sig

  unfoldable pub verify :
      List Bytes → Bytes → Bytes → Bytes → Bytes → ℤ → Result AuthError (Unit {0})
  unfolding verify_any
  verify pubs sig nonce exporter client_id client_time =
      if not (length sig == signature_size)
      then err bad_signature
      else verify_any pubs (signing_input nonce exporter client_id client_time) sig

module _ {PublicKey PrivateKey : Type 0} (pq : Mldsa65 PublicKey PrivateKey) where
  unfoldable pub pq_sign : PrivateKey → Bytes → Bytes → Bytes → ℤ → List Bytes → Option Bytes
  pq_sign sk nonce exporter client_id client_time requested =
      pq.sign_to sk (pq_signing_input nonce exporter client_id client_time requested) pq_auth_label

  -- A nil public key is skipped.
  unfoldable pub pq_verify_any :
      List (Option PublicKey) → Bytes → Bytes → Result AuthError (Unit {0})
  pq_verify_any [] msg sig = err pq_bad_signature
  pq_verify_any (none ∷ pubs) msg sig = pq_verify_any pubs msg sig
  pq_verify_any (some pk ∷ pubs) msg sig =
      if pq.verify pk msg pq_auth_label sig then ok tt else pq_verify_any pubs msg sig

  unfoldable pub pq_verify :
      List (Option PublicKey)
      → Bytes
      → Bytes
      → Bytes
      → Bytes
      → ℤ
      → List Bytes
      → Result AuthError (Unit {0})
  unfolding pq_verify_any
  pq_verify pubs sig nonce exporter client_id client_time requested =
      if not (length sig == pq.signature_size)
      then err pq_bad_signature
      else pq_verify_any pubs (pq_signing_input nonce exporter client_id client_time requested) sig
