-- ===== src/Auth/Verify/Sound.antt =====
-- Verification accepts exactly what some key of the list has signed.
use passage.Base.{◌≡◌, ◌↔◌, true, List, [], ◌∷◌, length, Bytes, Option, none, some, ok, Any, arith}
use passage.Base.Int.{ℤ}
use passage.Auth.Crypto.{Ed25519, Mldsa65, signature_size, public_key_size}
use passage.Auth.SigningInput.{signing_input, pq_signing_input}
use passage.Auth.Verify.{verify, verify_any, pq_verify, pq_verify_any}
use passage.Proto.Messages.{pq_auth_label}

module _ (ed : Ed25519) where
  -- The key has the right size and accepts the signature.
  abbrev pub Accepts : Bytes → Bytes → Bytes → Type 0
  Accepts msg sig pk = (length pk ≡ public_key_size) × (ed.verify pk msg sig ≡ true)

  verify_any_iff :
      (pubs : List Bytes) (msg sig : Bytes)
      → (verify_any ed pubs msg sig ≡ ok tt) ↔ Any (Accepts msg sig) pubs
  unfolding verify_any
  verify_any_iff [] msg sig = (λ h. cc, λ h. absurd h)
  verify_any_iff (pk ∷ pubs) msg sig = (
    λ h. ground (arith, (verify_any_iff pubs msg sig).0),
    λ h. ground (arith, (verify_any_iff pubs msg sig).1),
  )

  -- Verify returns nil exactly for a signature of 64 bytes that some 32-byte key of the list accepts over the
  -- signing input of this nonce, exporter, client id and time.
  pub verify_iff :
      (pubs : List Bytes) (sig nonce exporter id : Bytes) (t : ℤ)
      → (verify ed pubs sig nonce exporter id t ≡ ok tt) ↔ (
          (length sig ≡ signature_size)
          × Any (Accepts (signing_input nonce exporter id t) sig) pubs)
  unfolding verify
  verify_iff pubs sig nonce exporter id t =
      ground (arith, verify_any_iff pubs (signing_input nonce exporter id t) sig)

module _ {PublicKey PrivateKey : Type 0} (pq : Mldsa65 PublicKey PrivateKey) where
  -- A key that is there and accepts the signature under the context label.
  abbrev pub PqAccepts : Bytes → Bytes → Option PublicKey → Type 0
  PqAccepts msg sig none = ⊥
  PqAccepts msg sig (some pk) = pq.verify pk msg pq_auth_label sig ≡ true

  pq_verify_any_iff :
      (pubs : List (Option PublicKey)) (msg sig : Bytes)
      → (pq_verify_any pq pubs msg sig ≡ ok tt) ↔ Any (PqAccepts msg sig) pubs
  unfolding pq_verify_any
  pq_verify_any_iff [] msg sig = (λ h. cc, λ h. absurd h)
  pq_verify_any_iff (none ∷ pubs) msg sig = ground (arith, pq_verify_any_iff pubs msg sig)
  pq_verify_any_iff (some pk ∷ pubs) msg sig = (
    λ h. ground (arith, (pq_verify_any_iff pubs msg sig).0),
    λ h. ground (arith, (pq_verify_any_iff pubs msg sig).1),
  )

  -- PQVerify returns nil exactly for a signature of the scheme's size that some key of the list accepts,
  -- under the label passage-client-auth-v2, over the input that also covers the requested services.
  pub pq_verify_iff :
      (pubs : List (Option PublicKey)) (sig nonce exporter id : Bytes) (t : ℤ)
      (requested : List Bytes)
      → (pq_verify pq pubs sig nonce exporter id t requested ≡ ok tt) ↔ (
          (length sig ≡ pq.signature_size)
          × Any (PqAccepts (pq_signing_input nonce exporter id t requested) sig) pubs)
  unfolding pq_verify
  pq_verify_iff pubs sig nonce exporter id t requested =
      ground (arith, pq_verify_any_iff pubs (pq_signing_input nonce exporter id t requested) sig)
