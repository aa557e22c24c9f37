-- ===== src/QuickDocker/Cert.antt =====
-- generateSelfSignedTLS of internal/quickdocker/cert.go, and FingerprintFromCertFile of internal/tunnel/tls.go, which reads
-- the certificate back. crypto/x509 is an interface.
use passage.Base.{
  ℕ, ◌*◌, Bytes, Option, Result, ok, err, or_err, ◌>>=◌, codes, Bool, some, true, if◌then◌else◌,
  same, none,
}
use passage.Base.Int.{ℤ, pos, ◌+ℤ◌, ◌-ℤ◌}
use passage.Auth.Keys.{Pem, Block}
use passage.Go.Files.{Files, read_file}
use passage.Tunnel.Tls.{format_fingerprint}

-- The fields of the template that the program sets; times in seconds.
pub record Template : Type 0 where
  pub serial : ℕ
  pub common_name : Bytes
  pub not_before : ℤ
  pub not_after : ℤ
  pub digital_signature : Bool
  pub server_auth : Bool
  pub basic_constraints_valid : Bool

-- CreateCertificate for a key pair, MarshalPKCS8PrivateKey, and ParseCertificate with the Raw of its result.
pub record X509 : Type 0 where
  pub create_certificate : Template → Bytes → Bytes → Option Bytes
  pub marshal_pkcs8 : Bytes → Option Bytes
  pub parse_certificate : Bytes → Option Bytes

pub record TlsKeypair : Type 0 where
  pub cert_pem : Bytes
  pub key_pem : Bytes
  pub fingerprint : Bytes

pub data CertError : Type 0 where
  no_key no_serial not_created not_marshalled : CertError
  unreadable not_a_certificate not_parsed : CertError

abbrev pub certificate_type : Bytes
certificate_type = codes "CERTIFICATE"

abbrev pub template : ℕ → ℤ → Template
template serial now = record {
  serial = serial;
  common_name = codes "passage";
  not_before = now -ℤ pos 60;
  not_after = now +ℤ pos (825 * (24 * 3600));
  digital_signature = true;
  server_auth = true;
  basic_constraints_valid = true;
}

module _ (pem : Pem) (x509 : X509) (sha256 : Bytes → Bytes) where
  -- `key` and `serial` are what the random generator gave, `now` is the clock.
  unfoldable pub generate_self_signed_tls :
      Option (Bytes × Bytes) → Option ℕ → ℤ → Result CertError TlsKeypair
  unfolding format_fingerprint
  generate_self_signed_tls key serial now = do
    pair ← or_err key no_key
    n ← or_err serial no_serial
    der ← or_err (x509.create_certificate (template n now) pair.0 pair.1) not_created
    priv_der ← or_err (x509.marshal_pkcs8 pair.1) not_marshalled
    ok (record {
      cert_pem = pem.encode_to_memory (record { block_type = certificate_type; bytes = der });
      key_pem =
          pem.encode_to_memory (record { block_type = codes "PRIVATE KEY"; bytes = priv_der });
      fingerprint = format_fingerprint (sha256 der);
    })

  -- The certificate in a PEM block.
  unfoldable pub certificate_of_block : Option Block → Result CertError Bytes
  certificate_of_block none = err not_a_certificate
  certificate_of_block (some block) =
      if same block.block_type certificate_type
      then or_err (x509.parse_certificate block.bytes) not_parsed
      else err not_a_certificate

  unfoldable pub fingerprint_from_cert_file : Files → Bytes → Result CertError Bytes
  unfolding read_file certificate_of_block format_fingerprint
  fingerprint_from_cert_file f path = do
    content ← or_err (read_file f path) unreadable
    raw ← certificate_of_block (pem.decode content)
    ok (format_fingerprint (sha256 raw))
