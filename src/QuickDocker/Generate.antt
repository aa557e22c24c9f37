-- ===== src/QuickDocker/Generate.antt =====
-- ensureFreshDir and Generate of internal/quickdocker/generate.go, on a disk.
pub mod Frame
pub mod Runs
pub mod Written
pub mod Deployed
pub mod Success
pub mod Succeeds
use passage.Base.{
  ℕ, Bytes, List, [], ◌∷◌, ◌++◌, Bool, Option, Result, ok, err, or_err, codes, if◌then◌else◌, not,
  wrap_err,
}
use passage.Base.Int.{ℤ}
use passage.Auth.Crypto.{Ed25519, Mldsa65}
use passage.Auth.Keys.{
  Pem, Base64, KeyFileError, encode_pubkey, encode_pq_pubkey, write_privkey_pem,
  write_pq_privkey_pem, generate_pq_keypair,
}
use passage.Go.Files.{Files}
use passage.Go.Disk.{
  Disk, DiskError, M, ◌>>=◌, ◌>>◌, and_then, pure, join, Stat, is_dir, is_file, is_absent, unknown,
  stat, remove_all, mkdir_all, write, chmod, not_statted, files_of, with_contents,
}
use passage.Go.Path.{clean}
use passage.QuickDocker.Spec.{Spec}
use passage.QuickDocker.Render.{render_server_yaml, render_client_yaml}
use passage.QuickDocker.Compose.{compose_project_name, render_server_compose, render_client_compose}
use passage.QuickDocker.Cert.{X509, TlsKeypair, CertError, generate_self_signed_tls}

pub data GenerateError : Type 0 where
  not_a_directory already_exists : Bytes → GenerateError
  disk : DiskError → GenerateError
  tls_keypair : CertError → GenerateError
  key_file : KeyFileError → GenerateError
  ed25519_keypair mldsa_keypair : GenerateError

pub record GenerateOptions : Type 0 where
  pub out_dir : Bytes
  pub force : Bool

pub record GenerateResult : Type 0 where
  pub server_dir : Bytes
  pub client_dir : Bytes
  pub fingerprint : Bytes
  pub pub_key : Bytes
  pub pq_pub_key : Bytes
  pub server_project : Bytes
  pub client_project : Bytes

-- What the random generators and the clock give: the key pair and the serial number of the certificate, the client's Ed25519
-- key pair, and the seed of its ML-DSA key pair.
pub record Drawn : Type 0 where
  pub tls_key : Option (Bytes × Bytes)
  pub serial : Option ℕ
  pub now : ℤ
  pub client_key : Option (Bytes × Bytes)
  pub pq_seed : Option Bytes

-- The content of a file of these lines.
unfoldable pub unlines : List Bytes → Bytes
unlines [] = []
unlines (l ∷ rest) = l ++ (codes "\n" ++ unlines rest)

abbrev on_disk : {A : Type 0} → Result DiskError A × Disk → Result GenerateError A × Disk
on_disk (ok a, d) = (ok a, d)
on_disk (err e, d) = (err (disk e), d)

-- A call on the disk whose error Generate returns.
abbrev pub try_disk : {A : Type 0} → M DiskError A → M GenerateError A
try_disk m d = on_disk (m d)

abbrev with_files : Disk → Result KeyFileError Files → Result GenerateError (Unit {0}) × Disk
with_files d (ok f) = (ok tt, with_contents d f.contents)
with_files d (err e) = (err (key_file e), d)

-- A function that writes a key's file.
abbrev pub try_files : (Files → Result KeyFileError Files) → M GenerateError (Unit {0})
try_files write_key d = with_files d (write_key (files_of d))

unfoldable pub by_stat : Bytes → Bool → Stat → M GenerateError (Unit {0})
by_stat path force is_file = pure (err (not_a_directory path))
by_stat path force unknown = pure (err (disk not_statted))
by_stat path force is_absent = try_disk (mkdir_all path)
by_stat path force is_dir =
    if force
    then (try_disk (remove_all path) >> try_disk (mkdir_all path))
    else pure (err (already_exists path))

unfoldable pub ensure_fresh_dir : Bytes → Bool → M GenerateError (Unit {0})
unfolding by_stat
ensure_fresh_dir path force d = by_stat path force (stat d path) d

abbrev pub or_fail : {A : Type 0} → Option A → GenerateError → M GenerateError A
or_fail o e = pure (or_err o e)

module _ (pem : Pem) (x509 : X509) (sha256 : Bytes → Bytes) (b64 : Base64) (ed : Ed25519)
    {PublicKey PrivateKey : Type 0} (pq : Mldsa65 PublicKey PrivateKey) where
  -- The directories, and the certificate's two files.
  unfoldable pub generate_server_keys : Bytes → Bytes → Bool → Drawn → M GenerateError TlsKeypair
  generate_server_keys server_dir client_dir force r = do
    ensure_fresh_dir server_dir force
    ensure_fresh_dir client_dir force
    try_disk (mkdir_all (join server_dir (codes "keys")))
    try_disk (mkdir_all (join client_dir (codes "keys")))
    tls ←
        pure
          (wrap_err tls_keypair (generate_self_signed_tls pem x509 sha256 r.tls_key r.serial r.now))
    try_disk (write (join (join server_dir (codes "keys")) (codes "server.crt")) tls.cert_pem)
    try_disk (write (join (join server_dir (codes "keys")) (codes "server.key")) tls.key_pem)
    pure (ok tls)

  -- The client's two key files; the texts of the public keys.
  unfoldable pub generate_client_keys : Bytes → Drawn → M GenerateError (Bytes × Bytes)
  generate_client_keys client_dir r = do
    pair ← or_fail r.client_key ed25519_keypair
    try_files (λ f.
        write_privkey_pem pem ed f (join (join client_dir (codes "keys")) (codes "client.ed25519"))
          pair.1)
    try_disk (chmod (join (join client_dir (codes "keys")) (codes "client.ed25519")))
    pq_pair ← or_fail (generate_pq_keypair pq r.pq_seed) mldsa_keypair
    try_files (λ f.
        write_pq_privkey_pem pem pq f (join (join client_dir (codes "keys")) (codes "client.mldsa"))
          pq_pair.2)
    try_disk (chmod (join (join client_dir (codes "keys")) (codes "client.mldsa")))
    pure (ok (encode_pubkey b64 pair.0, encode_pq_pubkey b64 pq pq_pair.0))

  unfoldable pub generate_configs :
      Spec → Bytes → Bytes → TlsKeypair → Bytes × Bytes → M GenerateError (Unit {0})
  generate_configs spec server_dir client_dir tls pubs = do
    try_disk (
        write (join server_dir (codes "server.yaml"))
          (unlines (render_server_yaml spec pubs.0 pubs.1)))
    try_disk (
        write (join server_dir (codes "docker-compose.yml")) (unlines (render_server_compose spec)))
    try_disk (
        write (join client_dir (codes "client.yaml"))
          (unlines (render_client_yaml spec tls.fingerprint)))
    try_disk (
        write (join client_dir (codes "docker-compose.yml")) (unlines (render_client_compose spec)))

  unfoldable pub generate : Spec → GenerateOptions → Drawn → M GenerateError GenerateResult
  unfolding generate_server_keys generate_client_keys generate_configs
  generate spec opts r =
      let server_dir = join (clean opts.out_dir) (codes "server") in
      let client_dir = join (clean opts.out_dir) (codes "client") in
      (do
        tls ← generate_server_keys server_dir client_dir opts.force r
        pubs ← generate_client_keys client_dir r
        generate_configs spec server_dir client_dir tls pubs
        pure (
            ok (record {
              server_dir = server_dir;
              client_dir = client_dir;
              fingerprint = tls.fingerprint;
              pub_key = pubs.0;
              pq_pub_key = pubs.1;
              server_project = compose_project_name spec (codes "server");
              client_project = compose_project_name spec (codes "client");
            })))
