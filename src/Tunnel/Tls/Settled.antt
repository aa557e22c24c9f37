-- ===== src/Tunnel/Tls/Settled.antt =====
-- The TLS configurations of the two sides put together. What crypto/tls does with them is stated as it documents it.
use std.Path.{subst₂}
use passage.Tunnel.Tls.{
  Settings, Certificate, ConnectionState, server_tls_config, client_tls_config, format_fingerprint,
  version_tls13, require_pq_curve, verify_connection, client_settings, server_settings,
  x25519_mlkem768,
}
use passage.Base.{
  Bytes, ℕ, ◌≤◌, Option, ◌≡◌, Any, some, length, All, ◌<◌, ok, ◌↔◌, arith, inl, inr, sym,
}
use passage.Go.Files.{Files}
use passage.Tunnel.Tls.Pinning.{
  IsPinned, parse_fingerprint-format_fingerprint, verify_certificates_iff,
}

-- A handshake of crypto/tls that gets to the callbacks: one version and one group that both sides allow, and the client is shown the chain of a
-- certificate of the server.
pub record IsNegotiated (server client : Settings) (version : ℕ)
    (at_server at_client : ConnectionState) : Type 0 where
  pub server_version : server.min_version ≤ version
  pub client_version : client.min_version ≤ version
  pub same_curve : at_server.curve_id ≡ at_client.curve_id
  pub server_curve : Any (λ c. c ≡ at_server.curve_id) server.curve_preferences
  pub client_curve : Any (λ c. c ≡ at_client.curve_id) client.curve_preferences
  pub shown : Any (λ cert. cert.chain ≡ at_client.peer_certificates) server.certificates

module _ (sha256 : Bytes → Bytes) where
  client_tls_config-settings :
      (sum : Bytes) (client : Settings)
      → length sum ≡ 32
      → All (λ b. b < 256) sum
      → client_tls_config sha256 (format_fingerprint sum) ≡ ok client
      → client ≡ client_settings sha256 sum
  unfolding client_tls_config
  client_tls_config-settings sum client l h e =
      ground (arith, parse_fingerprint-format_fingerprint sum l h)

  pub shown_iff :
      (sum : Bytes) (cert : Certificate) (version : ℕ) (at_server at_client : ConnectionState)
      → IsNegotiated (server_settings cert) (client_settings sha256 sum) version at_server at_client
      → (verify_connection sha256 sum at_client ≡ ok tt) ↔ IsPinned sha256 sum cert.chain
  unfolding verify_connection
  shown_iff sum cert version at_server at_client n = elim n.shown [
    | inl e ↦ rw e (
        ground (
          arith,
          verify_certificates_iff sha256 sum at_client at_client.peer_certificates,
          n.client_curve,
        ))
    | inr e ↦ absurd e
  ]

  -- The client then sees the certificate that it wants, after the pinned key exchange.
  pub IsPinned-shown :
      (sum : Bytes) (cert : Certificate) (version : ℕ) (at_server at_client : ConnectionState)
      → IsNegotiated (server_settings cert) (client_settings sha256 sum) version at_server at_client
      → IsPinned sha256 sum cert.chain
      → IsPinned sha256 sum at_client.peer_certificates × (at_client.curve_id ≡ x25519_mlkem768)
  unfolding verify_connection
  IsPinned-shown sum cert version at_server at_client n pinned =
      (verify_certificates_iff sha256 sum at_client at_client.peer_certificates).0
        ((shown_iff sum cert version at_server at_client n).1 pinned)

  pub server-accepts :
      (sum : Bytes) (cert : Certificate) (version : ℕ) (at_server at_client : ConnectionState)
      → IsNegotiated (server_settings cert) (client_settings sha256 sum) version at_server at_client
      → require_pq_curve at_server ≡ ok tt
  unfolding require_pq_curve
  server-accepts sum cert version at_server at_client n = ground (arith, n.server_curve)

  module _ (load_x509_key_pair : Files → Bytes → Bytes → Option Certificate) where
    server_tls_config-settings :
        (f : Files) (cert_file key_file : Bytes) (cert : Certificate) (server : Settings)
        → load_x509_key_pair f cert_file key_file ≡ some cert
        → server_tls_config load_x509_key_pair f cert_file key_file ≡ ok server
        → server ≡ server_settings cert
    unfolding server_tls_config
    server_tls_config-settings f cert_file key_file cert server loaded e = ground arith

    -- Between a server with the certificate of its files and a client with the fingerprint of a digest, a negotiated handshake is of TLS 1.3 or later; the
    -- server's callback accepts it, and the client's does exactly if the digest is that of the first certificate.
    pub settled_iff :
        (f : Files) (cert_file key_file sum : Bytes) (cert : Certificate) (server client : Settings)
        (version : ℕ) (at_server at_client : ConnectionState)
        → load_x509_key_pair f cert_file key_file ≡ some cert
        → length sum ≡ 32
        → All (λ b. b < 256) sum
        → server_tls_config load_x509_key_pair f cert_file key_file ≡ ok server
        → client_tls_config sha256 (format_fingerprint sum) ≡ ok client
        → IsNegotiated server client version at_server at_client
        → (version_tls13 ≤ version)
          × (server.verify at_server ≡ ok tt)
          × ((client.verify at_client ≡ ok tt) ↔ IsPinned sha256 sum cert.chain)
    unfolding require_pq_curve verify_connection
    settled_iff f cert_file key_file sum cert server client version at_server at_client loaded l h
          es ec n =
        let s = server_tls_config-settings f cert_file key_file cert server loaded es in
        let c = client_tls_config-settings sum client l h ec in
        subst₂
          (λ server client.
            IsNegotiated server client version at_server at_client
            → (version_tls13 ≤ version)
              × (server.verify at_server ≡ ok tt)
              × ((client.verify at_client ≡ ok tt) ↔ IsPinned sha256 sum cert.chain))
          (sym s) (sym c)
          (λ n. (
            n.server_version,
            ground (arith, n.server_curve),
            shown_iff sum cert version at_server at_client n,
          ))
          n
