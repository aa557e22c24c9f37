-- ===== src/Tunnel/Handshake/Honest.antt =====
-- A client with registered keys convinces validateAuth.
use passage.Tunnel.Handshake.{client_auth, Codecs}
use passage.Tunnel.Server.Authentic.{IsListed, validate_auth_iff}
use passage.Auth.Crypto.{Ed25519, Mldsa65, public_key_size, signature_size}
use passage.Base.{
  List, Any, Bytes, length, lookup, ◌∷◌, ◌≡◌, inl, some, ◌≢◌, inr, none, true, ◌<◌, ok, [], All,
  arith, ap, refl,
}
use passage.Tunnel.Server.{Tables, or_nil, validate_auth}
use passage.Go.Time.{Time}
use passage.Base.Int.{ℤ}
use passage.Auth.SigningInput.{pq_signing_input, signing_input}
use passage.Proto.Messages.{pq_auth_label}
use passage.Auth.Skew.{check_clock_skew}
use passage.Auth.Verify.{sign}

-- crypto/ed25519 for one pair of keys: signatures have 64 bytes and verify.
pub record IsKeyPair (ed : Ed25519) (priv pk : Bytes) : Type 0 where
  pub pk_size : length pk ≡ public_key_size
  pub sig_size : (msg : Bytes) → length (ed.sign priv msg) ≡ signature_size
  pub verifies : (msg : Bytes) → ed.verify pk msg (ed.sign priv msg) ≡ true

-- mldsa65 for one pair of keys: `sig` is a signature under a context, with the scheme's size, that verifies.
pub record IsPqSignature {PublicKey PrivateKey : Type 0} (pq : Mldsa65 PublicKey PrivateKey)
    (sk : PrivateKey) (pk : PublicKey) (msg ctx sig : Bytes) : Type 0 where
  pub signs : pq.sign_to sk msg ctx ≡ some sig
  pub size : length sig ≡ pq.signature_size
  pub verifies : pq.verify pk msg ctx sig ≡ true

-- The tables hold both keys under the id, among others.
pub record IsRegistered {PublicKey : Type 0} (s : Tables PublicKey) (id pk : Bytes)
    (pq_pk : PublicKey) : Type 0 where
  pub known : lookup id s.client_pubs ≢ none
  pub listed : Any (λ x. x ≡ pk) (or_nil (lookup id s.client_pubs))
  pub pq_listed : Any (λ x. x ≡ some pq_pk) (or_nil (lookup id s.client_pq_pubs))

Any-map :
    {A : Type 0} (P Q : A → Type 0) (xs : List A) → ((x : A) → P x → Q x) → Any P xs → Any Q xs
Any-map P Q [] f h = absurd h
Any-map P Q (x ∷ xs) f (inl p) = inl (f x p)
Any-map P Q (x ∷ xs) f (inr p) = inr (Any-map P Q xs f p)

module _ (j : Codecs) (ed : Ed25519) {PublicKey PrivateKey : Type 0}
    (pq : Mldsa65 PublicKey PrivateKey) where
  -- A client that signs with registered keys, at a time within the window, and asks for something and only for services that it
  -- may have, is accepted.
  pub validate_auth-client_auth :
      (s : Tables PublicKey) (now : Time) (priv pk nonce exporter id : Bytes) (sk : PrivateKey)
      (pq_pk : PublicKey) (t : ℤ) (requested : List Bytes) (sig : Bytes)
      → IsKeyPair ed priv pk
      → IsPqSignature pq sk pq_pk (pq_signing_input nonce exporter id t requested) pq_auth_label sig
      → 0 < pq.signature_size
      → IsRegistered s id pk pq_pk
      → check_clock_skew now t ≡ ok tt
      → requested ≢ []
      → All (IsListed (or_nil (lookup id s.allowed))) requested
      → validate_auth ed pq s now nonce exporter
          (client_auth j ed pq priv nonce exporter id t requested sig)
        ≡ ok tt
  unfolding client_auth sign
  validate_auth-client_auth s now priv pk nonce exporter id sk pq_pk t requested sig kp ps pos_size
        reg skew some_req listed =
      (validate_auth_iff ed pq s now nonce exporter
          (client_auth j ed pq priv nonce exporter id t requested sig)).1
        (record {
          in_time = skew;
          known = reg.known;
          signature_length = kp.sig_size (signing_input nonce exporter id t);
          signed =
              Any-map (λ x. x ≡ pk) _ _
                (λ x e. rw e (kp.pk_size, kp.verifies (signing_input nonce exporter id t)))
                reg.listed;
          something_requested = some_req;
          all_allowed = listed;
          algorithm = refl;
          pq_signature_given = λ e. absurd (omega (arith, ap length e, ps.size));
          pq_signature_length = ps.size;
          pq_signed = Any-map (λ x. x ≡ some pq_pk) _ _ (λ x e. rw e ps.verifies) reg.pq_listed;
        })
