-- ===== src/Tunnel/Server/Authentic.antt =====
-- What validateAuth accepts.
use passage.Tunnel.Server.{Tables, validate_auth, check_services, or_nil}
use passage.Proto.Messages.{ClientAuth}
use passage.Auth.Crypto.{Ed25519, Mldsa65, signature_size}
use passage.Base.{
  Map, Bytes, List, lookup, ◌≡◌, ok, ◌≢◌, none, ◌↔◌, All, arith, length, ◌∷◌, Any, same_iff, [],
}
use passage.Config.Types.{ServiceEntry}
use passage.Go.Time.{Time}
use passage.Auth.Skew.{check_clock_skew}
use passage.Auth.Verify.Sound.{verify_iff, Accepts, pq_verify_iff, PqAccepts}
use passage.Auth.Keys.{pq_algorithm_mldsa}
use passage.Auth.SigningInput.{signing_input, pq_signing_input}

-- Every name is a key of the allowlist.
abbrev pub IsListed : Map ServiceEntry → Bytes → Type 0
IsListed allowed name = lookup name allowed ≢ none

check_services_iff :
    (allowed : Map ServiceEntry) (names : List Bytes)
    → (check_services allowed names ≡ ok tt) ↔ All (IsListed allowed) names
unfolding check_services
check_services_iff allowed [] = ground arith
check_services_iff allowed (name ∷ names) = ground (arith, check_services_iff allowed names)

module _ (ed : Ed25519) {PublicKey PrivateKey : Type 0} (pq : Mldsa65 PublicKey PrivateKey) where
  -- A claim that the server has reason to believe: a known client, both signatures by its keys over this
  -- connection's nonce and exporter, and only services that the client may have.
  pub record IsAuthentic (s : Tables PublicKey) (now : Time) (nonce exporter : Bytes)
      (ca : ClientAuth) : Type 0 where
    pub in_time : check_clock_skew now ca.client_time ≡ ok tt
    pub known : lookup ca.client_id s.client_pubs ≢ none
    pub signature_length : length ca.signature ≡ signature_size
    pub signed :
        Any
          (Accepts ed (signing_input nonce exporter ca.client_id ca.client_time) ca.signature)
          (or_nil (lookup ca.client_id s.client_pubs))
    pub something_requested : ca.requested_services ≢ []
    pub all_allowed : All (IsListed (or_nil (lookup ca.client_id s.allowed))) ca.requested_services
    pub algorithm : ca.pq_algorithm ≡ pq_algorithm_mldsa
    pub pq_signature_given : ca.pq_signature ≢ []
    pub pq_signature_length : length ca.pq_signature ≡ pq.signature_size
    pub pq_signed :
        Any
          (PqAccepts pq
            (pq_signing_input nonce exporter ca.client_id ca.client_time ca.requested_services)
            ca.pq_signature)
          (or_nil (lookup ca.client_id s.client_pq_pubs))

  -- validateAuth accepts exactly the claims whose time CheckClockSkew takes, of a known client, that some registered Ed25519 key and some
  -- registered ML-DSA key have signed over this connection's nonce and exporter, and that request at least one service and only
  -- services that the client may have.
  pub validate_auth_iff :
      (s : Tables PublicKey) (now : Time) (nonce exporter : Bytes) (ca : ClientAuth)
      → (validate_auth ed pq s now nonce exporter ca ≡ ok tt) ↔ IsAuthentic s now nonce exporter ca
  unfolding validate_auth
  validate_auth_iff s now nonce exporter ca = ground (
    arith,
    verify_iff ed (or_nil (lookup ca.client_id s.client_pubs)) ca.signature nonce exporter
        ca.client_id ca.client_time,
    check_services_iff (or_nil (lookup ca.client_id s.allowed)) ca.requested_services,
    same_iff ca.pq_algorithm pq_algorithm_mldsa,
    pq_verify_iff pq (or_nil (lookup ca.client_id s.client_pq_pubs)) ca.pq_signature nonce exporter
        ca.client_id ca.client_time ca.requested_services,
  )
