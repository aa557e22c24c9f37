-- ===== src/Tunnel/Server.antt =====
-- NewServer and validateAuth of internal/tunnel/server.go.
pub mod Authentic
pub mod Loading
use passage.Base.{
  Map, Bytes, List, [], ◌∷◌, insert, lookup, Result, ok, err, Option, ◌>>=◌, or_err, some, wrap_err,
  ◌>>◌, refuse_if, is_empty, ◌||◌, not, same, none,
}
use passage.Base.Int.{ℤ}
use passage.Auth.Crypto.{Ed25519, Mldsa65, AuthError}
use passage.Auth.Keys.{Base64, decode_pubkey, decode_pq_pubkey, pq_algorithm_mldsa}
use passage.Auth.Verify.{verify, pq_verify}
use passage.Auth.Skew.{check_clock_skew}
use passage.Config.Types.{ServerConfig, ClientEntry, ServiceEntry}
use passage.Proto.Messages.{ClientAuth}
use passage.Go.Time.{Time}
use passage.Config.Server.{is_nil}

-- The tables of a Server, which NewServer fills and nothing changes.
pub record Tables (PublicKey : Type 0) : Type 0 where
  pub clients_by_id : Map ClientEntry
  pub client_pubs : Map (List Bytes)
  pub client_pq_pubs : Map (List (Option PublicKey))
  pub allowed : Map (Map ServiceEntry)

pub data NewServerError : Type 0 where
  bad_key : Bytes → AuthError → NewServerError
  pq_pubkey_required : Bytes → NewServerError

-- svcMap
unfoldable pub service_map : Map ServiceEntry → List ServiceEntry → Map ServiceEntry
service_map m [] = m
service_map m (s ∷ rest) = service_map (insert s.name s m) rest

-- The value that a map read gives for a missing key, where that is nil.
abbrev pub or_nil : {A : Type 0} → Option (List A) → List A
or_nil none = []
or_nil (some l) = l

module _ (b64 : Base64) {PublicKey PrivateKey : Type 0} (pq : Mldsa65 PublicKey PrivateKey) where
  unfoldable pub decode_pubkeys : List Bytes → Result AuthError (List Bytes)
  decode_pubkeys [] = ok []
  decode_pubkeys (txt ∷ rest) = do
    pk ← decode_pubkey b64 txt
    pubs ← decode_pubkeys rest
    ok (pk ∷ pubs)

  unfoldable pub decode_pq_pubkeys : List Bytes → Result AuthError (List (Option PublicKey))
  decode_pq_pubkeys [] = ok []
  decode_pq_pubkeys (txt ∷ rest) = do
    pk ← decode_pq_pubkey b64 pq txt
    pubs ← decode_pq_pubkeys rest
    ok (some pk ∷ pubs)

  -- The body of NewServer's loop.
  unfoldable pub add_client :
      Tables PublicKey → ClientEntry → Result NewServerError (Tables PublicKey)
  unfolding service_map
  add_client t ce = do
    pubs ← wrap_err (bad_key ce.id) (decode_pubkeys ce.pubkey)
    refuse_if (is_nil ce.pq_pubkey) (pq_pubkey_required ce.id)
    pq_pubs ← wrap_err (bad_key ce.id) (decode_pq_pubkeys ce.pq_pubkey)
    ok (record {
      clients_by_id = insert ce.id ce t.clients_by_id;
      client_pubs = insert ce.id pubs t.client_pubs;
      client_pq_pubs = insert ce.id pq_pubs t.client_pq_pubs;
      allowed = insert ce.id (service_map [] ce.services) t.allowed;
    })

  unfoldable pub add_clients :
      Tables PublicKey → List ClientEntry → Result NewServerError (Tables PublicKey)
  add_clients t [] = ok t
  add_clients t (ce ∷ rest) = do t' ← add_client t ce; add_clients t' rest

  -- NewServer from the point where serverTLSConfig has loaded the certificate.
  unfoldable pub new_server : ServerConfig → Result NewServerError (Tables PublicKey)
  new_server cfg =
      add_clients
        (record { clients_by_id = []; client_pubs = []; client_pq_pubs = []; allowed = [] })
        cfg.clients

-- The reason of a rejection, which is logged and not sent.
pub data Reason : Type 0 where
  clock_skew unknown_client_id bad_signature no_services_requested pq_signature_required
        bad_pq_signature :
      Reason
  service_not_allowed unknown_pq_algorithm : Bytes → Reason

-- The first requested name that is not in the allowlist.
unfoldable pub check_services : Map ServiceEntry → List Bytes → Result Reason (Unit {0})
check_services allowed [] = ok tt
check_services allowed (name ∷ rest) = do
  _ ← or_err (lookup name allowed) (service_not_allowed name)
  check_services allowed rest

module _ (ed : Ed25519) {PublicKey PrivateKey : Type 0} (pq : Mldsa65 PublicKey PrivateKey) where
  unfoldable pub validate_auth :
      Tables PublicKey → Time → Bytes → Bytes → ClientAuth → Result Reason (Unit {0})
  unfolding check_services
  validate_auth s now nonce exporter ca = do
    wrap_err (λ _. clock_skew) (check_clock_skew now ca.client_time)
    pubs ← or_err (lookup ca.client_id s.client_pubs) unknown_client_id
    wrap_err (λ _. bad_signature)
        (verify ed pubs ca.signature nonce exporter ca.client_id ca.client_time)
    refuse_if (is_nil ca.requested_services) no_services_requested
    check_services (or_nil (lookup ca.client_id s.allowed)) ca.requested_services
    let pq_pubs = or_nil (lookup ca.client_id s.client_pq_pubs)
    refuse_if (is_empty ca.pq_algorithm || is_empty ca.pq_signature) pq_signature_required
    refuse_if (not (same ca.pq_algorithm pq_algorithm_mldsa)) (unknown_pq_algorithm ca.pq_algorithm)
    wrap_err (λ _. bad_pq_signature)
        (pq_verify pq pq_pubs ca.pq_signature nonce exporter ca.client_id ca.client_time
          ca.requested_services)
