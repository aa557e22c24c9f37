-- ===== src/Tunnel/Tls/Pinning.antt =====
-- Whom the client talks to.
use passage.Tunnel.Tls.{
  parse_fingerprint, format_fingerprint, verify_connection, verify_certificates, client_tls,
  x25519_mlkem768, ConnectionState,
}
use passage.Base.{
  Bytes, List, length, ◌∷◌, ◌≡◌, All, [], ok, ◌<◌, ◌↔◌, arith, has_prefix-append,
  drop-append_length, same_iff,
}
use passage.Go.Hex.{decode_string-encode_to_string}

-- A fingerprint that was printed is read back, for the 32 bytes of a digest.
pub parse_fingerprint-format_fingerprint :
    (sum : Bytes)
    → length sum ≡ 32
    → All (λ b. b < 256) sum
    → parse_fingerprint (format_fingerprint sum) ≡ ok sum
unfolding parse_fingerprint format_fingerprint
parse_fingerprint-format_fingerprint sum l h =
    rw (has_prefix-append, drop-append_length, decode_string-encode_to_string sum h, l)

module _ (sha256 : Bytes → Bytes) where
  -- The first certificate of the chain has the digest.
  abbrev pub IsPinned : Bytes → List Bytes → Type 0
  IsPinned want [] = ⊥
  IsPinned want (cert ∷ rest) = sha256 cert ≡ want

  pub verify_certificates_iff :
      (want : Bytes) (cs : ConnectionState) (certs : List Bytes)
      → (verify_certificates sha256 want cs certs ≡ ok tt)
        ↔ (IsPinned want certs × (cs.curve_id ≡ x25519_mlkem768))
  unfolding verify_certificates
  verify_certificates_iff want cs [] = ground arith
  verify_certificates_iff want cs (cert ∷ rest) = ground (arith, same_iff (sha256 cert) want)

  -- A client that is configured with the printed fingerprint of a 32-byte digest goes on exactly if the
  -- server's first certificate has that digest and the key exchange was X25519MLKEM768.
  pub client_tls_iff :
      (sum : Bytes) (cs : ConnectionState)
      → length sum ≡ 32
      → All (λ b. b < 256) sum
      → (client_tls sha256 (format_fingerprint sum) cs ≡ ok tt)
        ↔ (IsPinned sum cs.peer_certificates × (cs.curve_id ≡ x25519_mlkem768))
  unfolding client_tls verify_connection
  client_tls_iff sum cs l h =
      rw (parse_fingerprint-format_fingerprint sum l h)
        (verify_certificates_iff sum cs cs.peer_certificates)
