-- ===== src/Tunnel/Tls.antt =====
-- internal/tunnel/tls.go: the pinned fingerprint and the pinned key exchange.
pub mod Pinning
pub mod Settled
use passage.Base.{
  ℕ, ◌==◌, not, List, [], ◌∷◌, ◌++◌, length, drop, has_prefix, same, codes, Bytes, Option, none,
  some, Result, ok, err, ◌>>=◌, ◌>>◌, refuse_if, or_err, Bool, true, false,
}
use passage.Go.Hex.{encode_to_string, decode_string}
use passage.Auth.Keys.{trim}
use passage.Go.Files.{Files}

pub data TlsError : Type 0 where
  fingerprint_prefix fingerprint_hex fingerprint_size : TlsError
  no_peer_certificate fingerprint_mismatch : TlsError
  non_pq_key_exchange : ℕ → TlsError
  load_keypair : TlsError

-- tls.X25519MLKEM768
abbrev pub x25519_mlkem768 : ℕ
x25519_mlkem768 = 4588

-- What the callbacks read of a tls.ConnectionState: the raw peer certificates and the negotiated curve.
pub record ConnectionState : Type 0 where
  pub peer_certificates : List Bytes
  pub curve_id : ℕ

-- Of a tls.Certificate, the raw certificates that are shown to the peer.
pub record Certificate : Type 0 where
  pub chain : List Bytes

-- The fields of a tls.Config that the program sets; `verify` is VerifyConnection.
pub record Settings : Type 0 where
  pub min_version : ℕ
  pub cipher_suites : List ℕ
  pub curve_preferences : List ℕ
  pub certificates : List Certificate
  pub insecure_skip_verify : Bool
  pub verify : ConnectionState → Result TlsError (Unit {0})

-- tls.VersionTLS13
abbrev pub version_tls13 : ℕ
version_tls13 = 772

-- tls.TLS_AES_256_GCM_SHA384
abbrev pub tls_aes_256_gcm_sha384 : ℕ
tls_aes_256_gcm_sha384 = 4866

-- tls.TLS_CHACHA20_POLY1305_SHA256
abbrev pub tls_chacha20_poly1305_sha256 : ℕ
tls_chacha20_poly1305_sha256 = 4867

abbrev pub pq_curve_preferences : List ℕ
pq_curve_preferences = x25519_mlkem768 ∷ []

abbrev pub fingerprint_prefix_text : Bytes
fingerprint_prefix_text = codes "sha256:"

unfoldable pub parse_fingerprint : Bytes → Result TlsError Bytes
unfolding trim
parse_fingerprint s = do
  refuse_if (not (has_prefix fingerprint_prefix_text s)) fingerprint_prefix
  raw ← or_err (decode_string (trim fingerprint_prefix_text s)) fingerprint_hex
  refuse_if (not (length raw == 32)) fingerprint_size
  ok raw

-- auth.FormatFingerprint of internal/auth/auth.go.
unfoldable pub format_fingerprint : Bytes → Bytes
format_fingerprint sum = fingerprint_prefix_text ++ encode_to_string sum

-- The server's VerifyConnection.
unfoldable pub require_pq_curve : ConnectionState → Result TlsError (Unit {0})
require_pq_curve cs =
    refuse_if (not (cs.curve_id == x25519_mlkem768)) (non_pq_key_exchange cs.curve_id)

module _ (sha256 : Bytes → Bytes) where
  -- The client's VerifyConnection, by the certificates that the server showed.
  unfoldable pub verify_certificates :
      Bytes → ConnectionState → List Bytes → Result TlsError (Unit {0})
  unfolding require_pq_curve
  verify_certificates want cs [] = err no_peer_certificate
  verify_certificates want cs (cert ∷ rest) = do
    refuse_if (not (same (sha256 cert) want)) fingerprint_mismatch
    require_pq_curve cs

  unfoldable pub verify_connection : Bytes → ConnectionState → Result TlsError (Unit {0})
  unfolding verify_certificates
  verify_connection want cs = verify_certificates want cs cs.peer_certificates

  abbrev pub client_settings : Bytes → Settings
  client_settings want = record {
    min_version = version_tls13;
    cipher_suites = tls_aes_256_gcm_sha384 ∷ (tls_chacha20_poly1305_sha256 ∷ []);
    curve_preferences = pq_curve_preferences;
    certificates = [];
    insecure_skip_verify = true;
    verify = verify_connection want;
  }

  -- `expected_fingerprint` as in client.yaml.
  unfoldable pub client_tls_config : Bytes → Result TlsError Settings
  client_tls_config expected_fingerprint = do
    want ← parse_fingerprint expected_fingerprint
    ok (client_settings want)

  -- The client's configuration with the handshake's call of its VerifyConnection.
  unfoldable pub client_tls : Bytes → ConnectionState → Result TlsError (Unit {0})
  unfolding client_tls_config
  client_tls expected_fingerprint cs = do
    settings ← client_tls_config expected_fingerprint
    settings.verify cs

abbrev pub server_settings : Certificate → Settings
server_settings cert = record {
  min_version = version_tls13;
  cipher_suites = tls_aes_256_gcm_sha384 ∷ (tls_chacha20_poly1305_sha256 ∷ []);
  curve_preferences = pq_curve_preferences;
  certificates = cert ∷ [];
  insecure_skip_verify = false;
  verify = require_pq_curve;
}

-- `load_x509_key_pair` is tls.LoadX509KeyPair.
unfoldable pub server_tls_config :
    (Files → Bytes → Bytes → Option Certificate) → Files → Bytes → Bytes → Result TlsError Settings
server_tls_config load_x509_key_pair f cert_file key_file = do
  cert ← or_err (load_x509_key_pair f cert_file key_file) load_keypair
  ok (server_settings cert)
