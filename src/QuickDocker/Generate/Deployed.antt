-- ===== src/QuickDocker/Generate/Deployed.antt =====
-- A deployment that Generate has written fits together: each side's files name the keys that the other side's files hold.
use passage.Go.Path.{clean}
use passage.Base.{
  Bytes, Option, none, some, ok, ◌≡◌, refl, arith, codes, length, ℕ, Option-cases, inl, inr,
  same_refl, same, subst,
}
use passage.Auth.Crypto.{Ed25519, Mldsa65}
use passage.Auth.Keys.{
  Pem, Block, Base64, encode_pubkey, encode_pq_pubkey, privkey_pem_type, pq_privkey_pem_type,
  pq_seed_size,
}
use passage.Go.Files.{Files, read_file}
use passage.Go.Disk.{Disk, join}
use passage.QuickDocker.Cert.{
  X509, Template, TlsKeypair, generate_self_signed_tls, fingerprint_from_cert_file,
  certificate_type, certificate_of_block, template,
}
use passage.QuickDocker.Spec.{Spec}
use passage.QuickDocker.Render.{render_server_yaml, render_client_yaml}
use passage.QuickDocker.Generate.{
  Drawn, GenerateOptions, generate, unlines, generate_server_keys, generate_client_keys,
  generate_configs,
}
use passage.QuickDocker.Generate.Runs.{
  HasFile, Yields, Yields-ok, Yields-bind, Yields-then, Yields-return, Keeps-HasFile, join3-ne,
}
use passage.QuickDocker.Generate.Written.{
  cert_path, ed25519_path, mldsa_path, server_of, client_of, generate_server_keys-Yields,
  generate_client_keys-Yields, generate_configs-Yields, Keeps-configs-server, Keeps-configs-client,
}
use passage.Base.Int.{ℤ}
use passage.QuickDocker.Generate.Frame.{Keeps-generate_client_keys}

module _ (pem : Pem)
    (decode-encode : (b : Block) → pem.decode (pem.encode_to_memory b) ≡ some b) where
  -- A certificate that the program made and stored has the fingerprint that it gave, if crypto/x509 parses the certificates it creates.
  pub fingerprint-generate_self_signed_tls :
      (x509 : X509)
      → ((t : Template) (k p der : Bytes)
          → x509.create_certificate t k p ≡ some der
          → x509.parse_certificate der ≡ some der)
      → (sha256 : Bytes → Bytes) (key : Option (Bytes × Bytes)) (serial : Option ℕ) (now : ℤ)
        (tls : TlsKeypair) (f : Files) (path : Bytes)
      → generate_self_signed_tls pem x509 sha256 key serial now ≡ ok tls
      → read_file f path ≡ some tls.cert_pem
      → fingerprint_from_cert_file pem x509 sha256 f path ≡ ok tls.fingerprint
  unfolding generate_self_signed_tls fingerprint_from_cert_file certificate_of_block
  fingerprint-generate_self_signed_tls x509 parse sha256 none serial now tls f path made stored =
      absurd (cc)
  fingerprint-generate_self_signed_tls x509 parse sha256 (some pair) none now tls f path made
        stored =
      absurd (cc)
  fingerprint-generate_self_signed_tls x509 parse sha256 (some pair) (some n) now tls f path made
        stored =
      elim (Option-cases (x509.create_certificate (template n now) pair.0 pair.1)) [
        | inl none_ ↦ absurd (ground arith)
        | inr (der, created) ↦ ground (
          arith,
          parse (template n now) pair.0 pair.1 der created,
          same_refl certificate_type,
          decode-encode (record { block_type = certificate_type; bytes = der }),
        )
      ]

module _ (pem : Pem) (x509 : X509) (sha256 : Bytes → Bytes) (b64 : Base64) (ed : Ed25519)
    {PublicKey PrivateKey : Type 0} (pq : Mldsa65 PublicKey PrivateKey) where
  pub generate-Yields :
      (spec : Spec) (opts : GenerateOptions) (r : Drawn) (d : Disk)
      → Yields d (generate pem x509 sha256 b64 ed pq spec opts r) (λ res d'.
        (tls : TlsKeypair) × (pair : Bytes × Bytes) × (seed : Bytes) × (generate_self_signed_tls pem
            x509 sha256 r.tls_key r.serial r.now
          ≡ ok tls)
        × (r.client_key ≡ some pair)
        × (r.pq_seed ≡ some seed)
        × (length seed ≡ pq_seed_size)
        × (res.fingerprint ≡ tls.fingerprint)
        × HasFile d' (cert_path (clean opts.out_dir)) tls.cert_pem
        × HasFile d' (ed25519_path (clean opts.out_dir)) (
            pem.encode_to_memory (record { block_type = privkey_pem_type; bytes = ed.seed pair.1 }))
        × HasFile d'
            (mldsa_path (clean opts.out_dir))
            (pem.encode_to_memory (record { block_type = pq_privkey_pem_type; bytes = seed }))
        × HasFile d' (join (server_of (clean opts.out_dir)) (codes "server.yaml")) (
            unlines (
              render_server_yaml spec
                (encode_pubkey b64 pair.0)
                (encode_pq_pubkey b64 pq (pq.new_key_from_seed seed).0)))
        × HasFile d'
            (join (client_of (clean opts.out_dir)) (codes "client.yaml"))
            (unlines (render_client_yaml spec tls.fingerprint)))
  unfolding generate same
  generate-Yields spec opts r d =
      let out = (clean opts.out_dir) in
      Yields-bind _
        (generate_server_keys pem x509 sha256 b64 ed pq (server_of out) (client_of out) opts.force
          r)
        _
        (λ (tls : TlsKeypair) d1 w1.
          Yields-bind _ (generate_client_keys pem x509 sha256 b64 ed pq (client_of out) r) _
            (λ (pubs : Bytes × Bytes) d2 w2.
              Yields-then _
                (generate_configs pem x509 sha256 b64 ed pq spec (server_of out) (client_of out) tls
                  pubs)
                _
                (λ d3 w3. Yields-return _ _ _ (
                  let (made, cert) =
                    Yields-ok _ _
                      (generate_server_keys-Yields pem x509 sha256 b64 ed pq out opts.force r d)
                      w1 in
                  let (pair, seed, drawn, pq_drawn, size, at_ed, at_pq, texts) =
                    Yields-ok _ _ (generate_client_keys-Yields pem x509 sha256 b64 ed pq out r d1)
                      w2 in
                  let (server_yaml, client_yaml) =
                    Yields-ok _ _
                      (generate_configs-Yields pem x509 sha256 b64 ed pq spec out tls pubs d2) w3 in
                  let cert2 =
                    Keeps-HasFile _ _ _
                      (Keeps-generate_client_keys pem x509 sha256 b64 ed pq _ (client_of out) r
                        (join3-ne out (codes "client") (codes "keys") (codes "server")
                          (codes "keys") (codes "client.ed25519") (codes "server.crt") refl)
                        (join3-ne out (codes "client") (codes "keys") (codes "server")
                          (codes "keys") (codes "client.mldsa") (codes "server.crt") refl))
                      w2 cert in
                  (
                    tls,
                    pair,
                    seed,
                    made,
                    drawn,
                    pq_drawn,
                    size,
                    refl,
                    Keeps-HasFile _ _ _
                        (Keeps-configs-server pem x509 sha256 b64 ed pq spec out
                          (codes "server.crt") tls pubs)
                        w3 cert2,
                    Keeps-HasFile _ _ _
                        (Keeps-configs-client pem x509 sha256 b64 ed pq spec out
                          (codes "client.ed25519") tls pubs)
                        w3 at_ed,
                    Keeps-HasFile _ _ _
                        (Keeps-configs-client pem x509 sha256 b64 ed pq spec out
                          (codes "client.mldsa") tls pubs)
                        w3 at_pq,
                    subst
                        (λ (t : Bytes × Bytes).
                          HasFile d3 (join (server_of out) (codes "server.yaml"))
                            (unlines (render_server_yaml spec t.0 t.1)))
                        texts server_yaml,
                    client_yaml,
                  )))))
