-- ===== src/QuickDocker/Generate/Written.antt =====
-- What the files of a generated deployment hold.
use passage.Base.{
  Bytes, Option, none, some, ok, ◌≡◌, refl, arith, codes, length, same, ap, sym, Bool, wrap_err,
  wrap_err-eq-ok,
}
use passage.Auth.Crypto.{Ed25519, Mldsa65}
use passage.Auth.Keys.{
  Pem, Base64, generate_pq_keypair, encode_pubkey, encode_pq_pubkey, privkey_pem_type,
  pq_privkey_pem_type, pq_seed_size, write_privkey_pem, write_pq_privkey_pem,
}
use passage.Go.Disk.{Disk, join, chmod, mkdir_all}
use passage.QuickDocker.Cert.{X509, TlsKeypair, generate_self_signed_tls}
use passage.QuickDocker.Spec.{Spec}
use passage.QuickDocker.Render.{render_server_yaml, render_client_yaml}
use passage.QuickDocker.Generate.{
  Drawn, generate_configs, generate_client_keys, generate_server_keys, unlines, try_disk, try_files,
  ensure_fresh_dir, tls_keypair,
}
use passage.QuickDocker.Generate.Frame.{
  Keeps, Keeps-chmod, Keeps-generate_configs, Keeps-write_pq_privkey_pem,
}
use passage.QuickDocker.Generate.Runs.{
  Yields-or_fail, Yields-return, Yields-write_end, Yields-pure, Yields-write, Yields, HasFile,
  Yields-then, Keeps-HasFile, write_privkey_pem-HasFile, write_pq_privkey_pem-HasFile, join2-ne,
  join2-ne-join3, join3-ne,
}

abbrev pub server_of : Bytes → Bytes
server_of out = join out (codes "server")

abbrev pub client_of : Bytes → Bytes
client_of out = join out (codes "client")

abbrev pub cert_path : Bytes → Bytes
cert_path out = join (join (server_of out) (codes "keys")) (codes "server.crt")

abbrev pub ed25519_path : Bytes → Bytes
ed25519_path out = join (join (client_of out) (codes "keys")) (codes "client.ed25519")

abbrev pub mldsa_path : Bytes → Bytes
mldsa_path out = join (join (client_of out) (codes "keys")) (codes "client.mldsa")

module _ (pem : Pem) (x509 : X509) (sha256 : Bytes → Bytes) (b64 : Base64) (ed : Ed25519)
    {PublicKey PrivateKey : Type 0} (pq : Mldsa65 PublicKey PrivateKey) where
  pub generate_configs-Yields :
      (spec : Spec) (out : Bytes) (tls : TlsKeypair) (pubs : Bytes × Bytes) (d : Disk)
      → Yields d
          (generate_configs pem x509 sha256 b64 ed pq spec (server_of out) (client_of out) tls pubs)
          (λ _ d'.
            HasFile d'
              (join (server_of out) (codes "server.yaml"))
              (unlines (render_server_yaml spec pubs.0 pubs.1))
            × HasFile d'
                (join (client_of out) (codes "client.yaml"))
                (unlines (render_client_yaml spec tls.fingerprint)))
  unfolding generate_configs same
  generate_configs-Yields spec out tls pubs d = Yields-write _ _ _ _ _ (λ d1 server_yaml _.
      Yields-write _ _ _ _ _ (λ d2 _ keep2. Yields-write _ _ _ _ _ (λ d3 client_yaml keep3.
        Yields-write_end _ _ _ _ (λ d4 _ keep4.
          let two =
            keep2 _ _
              (join2-ne out (codes "server") (codes "docker-compose.yml") (codes "server")
                (codes "server.yaml") refl)
              server_yaml in
          let three =
            keep3 _ _
              (join2-ne out (codes "client") (codes "client.yaml") (codes "server")
                (codes "server.yaml") refl)
              two in
          (
            keep4 _ _
                (join2-ne out (codes "client") (codes "docker-compose.yml") (codes "server")
                  (codes "server.yaml") refl)
                three,
            keep4 _ _
                (join2-ne out (codes "client") (codes "docker-compose.yml") (codes "client")
                  (codes "client.yaml") refl)
                client_yaml,
          )))))

  -- The four configuration files are none of the files of keys.
  pub Keeps-configs-server :
      (spec : Spec) (out name : Bytes) (tls : TlsKeypair) (pubs : Bytes × Bytes)
      → Keeps
          (join (join (server_of out) (codes "keys")) name)
          (generate_configs pem x509 sha256 b64 ed pq spec (server_of out) (client_of out) tls pubs)
  unfolding same
  Keeps-configs-server spec out name tls pubs =
      Keeps-generate_configs pem x509 sha256 b64 ed pq _ spec _ _ tls pubs
        (join2-ne-join3 out (codes "server") (codes "server.yaml") (codes "server") (codes "keys")
          name refl)
        (join2-ne-join3 out (codes "server") (codes "docker-compose.yml") (codes "server")
          (codes "keys") name refl)
        (join2-ne-join3 out (codes "client") (codes "client.yaml") (codes "server") (codes "keys")
          name refl)
        (join2-ne-join3 out (codes "client") (codes "docker-compose.yml") (codes "server")
          (codes "keys") name refl)

  pub Keeps-configs-client :
      (spec : Spec) (out name : Bytes) (tls : TlsKeypair) (pubs : Bytes × Bytes)
      → Keeps
          (join (join (client_of out) (codes "keys")) name)
          (generate_configs pem x509 sha256 b64 ed pq spec (server_of out) (client_of out) tls pubs)
  unfolding same
  Keeps-configs-client spec out name tls pubs =
      Keeps-generate_configs pem x509 sha256 b64 ed pq _ spec _ _ tls pubs
        (join2-ne-join3 out (codes "server") (codes "server.yaml") (codes "client") (codes "keys")
          name refl)
        (join2-ne-join3 out (codes "server") (codes "docker-compose.yml") (codes "client")
          (codes "keys") name refl)
        (join2-ne-join3 out (codes "client") (codes "client.yaml") (codes "client") (codes "keys")
          name refl)
        (join2-ne-join3 out (codes "client") (codes "docker-compose.yml") (codes "client")
          (codes "keys") name refl)

  -- A drawn ML-DSA key pair is the one of the drawn seed.
  generate_pq_keypair-some :
      (drawn : Option Bytes) {pq_pair : PublicKey × PrivateKey × Bytes}
      → generate_pq_keypair pq drawn ≡ some pq_pair
      → (drawn ≡ some pq_pair.2) × ((pq.new_key_from_seed pq_pair.2).0 ≡ pq_pair.0)
  unfolding generate_pq_keypair
  generate_pq_keypair-some none e = absurd (cc)
  generate_pq_keypair-some (some seed) e = ground arith

  pub generate_client_keys-Yields :
      (out : Bytes) (r : Drawn) (d : Disk)
      → Yields d (generate_client_keys pem x509 sha256 b64 ed pq (client_of out) r) (λ pubs d'.
        (pair : Bytes × Bytes) × (seed : Bytes) × (r.client_key ≡ some pair)
        × (r.pq_seed ≡ some seed)
        × (length seed ≡ pq_seed_size)
        × HasFile d' (ed25519_path out) (
            pem.encode_to_memory (record { block_type = privkey_pem_type; bytes = ed.seed pair.1 }))
        × HasFile d'
            (mldsa_path out)
            (pem.encode_to_memory (record { block_type = pq_privkey_pem_type; bytes = seed }))
        × (pubs
            ≡ (encode_pubkey b64 pair.0, encode_pq_pubkey b64 pq (pq.new_key_from_seed seed).0)))
  unfolding generate_client_keys same
  generate_client_keys-Yields out r d =
      Yields-or_fail _ _ r.client_key _ _ (λ (pair : Bytes × Bytes) drawn.
        Yields-then _ (try_files (λ f. write_privkey_pem pem ed f (ed25519_path out) pair.1)) _
          (λ d1 w1. Yields-then _ (try_disk (chmod (ed25519_path out))) _ (λ d2 w2.
            Yields-or_fail _ _ (generate_pq_keypair pq r.pq_seed) _ _
              (λ (pq_pair : PublicKey × PrivateKey × Bytes) pq_drawn.
                Yields-then _
                  (try_files (λ f. write_pq_privkey_pem pem pq f (mldsa_path out) pq_pair.2)) _
                  (λ d3 w3. Yields-then _ (try_disk (chmod (mldsa_path out))) _ (λ d4 w4.
                    Yields-return _ _ _ (
                      let (from, same_pk) = generate_pq_keypair-some r.pq_seed pq_drawn in
                      let (_, at1) = write_privkey_pem-HasFile pem ed _ _ d w1 in
                      let (size, at3) = write_pq_privkey_pem-HasFile pem pq _ _ d2 w3 in
                      let at2 = Keeps-HasFile _ _ _ (Keeps-chmod _ _) w2 at1 in
                      let still3 =
                        Keeps-HasFile _ _ _
                          (Keeps-write_pq_privkey_pem pem x509 sha256 b64 ed pq _ _ _ (
                            join3-ne out (codes "client") (codes "keys") (codes "client")
                              (codes "keys") (codes "client.mldsa") (codes "client.ed25519") refl))
                          w3 at2 in
                      (
                        pair,
                        pq_pair.2,
                        drawn,
                        from,
                        size,
                        Keeps-HasFile _ _ _ (Keeps-chmod _ _) w4 still3,
                        Keeps-HasFile _ _ _ (Keeps-chmod _ _) w4 at3,
                        ap (λ k. (encode_pubkey b64 pair.0, encode_pq_pubkey b64 pq k))
                            (sym same_pk),
                      ))))))))

  pub generate_server_keys-Yields :
      (out : Bytes) (force : Bool) (r : Drawn) (d : Disk)
      → Yields d
          (generate_server_keys pem x509 sha256 b64 ed pq (server_of out) (client_of out) force r)
          (λ tls d'.
            (generate_self_signed_tls pem x509 sha256 r.tls_key r.serial r.now ≡ ok tls)
            × HasFile d' (cert_path out) tls.cert_pem)
  unfolding generate_server_keys same
  generate_server_keys-Yields out force r d =
      Yields-then _ (ensure_fresh_dir (server_of out) force) _ (λ d1 _.
        Yields-then _ (ensure_fresh_dir (client_of out) force) _ (λ d2 _.
          Yields-then _ (try_disk (mkdir_all (join (server_of out) (codes "keys")))) _ (λ d3 _.
            Yields-then _ (try_disk (mkdir_all (join (client_of out) (codes "keys")))) _ (λ d4 _.
              Yields-pure _ _
                (wrap_err tls_keypair
                  (generate_self_signed_tls pem x509 sha256 r.tls_key r.serial r.now))
                _
                (λ (tls : TlsKeypair) drawn.
                  Yields-write _ _ (cert_path out) tls.cert_pem _ (λ d5 at5 _.
                    Yields-write _ _
                      (join (join (server_of out) (codes "keys")) (codes "server.key")) tls.key_pem
                      _
                      (λ d6 _ keep6. Yields-return _ _ _ (
                        wrap_err-eq-ok tls_keypair _ drawn,
                        keep6 _ _
                            (join3-ne out (codes "server") (codes "keys") (codes "server")
                              (codes "keys") (codes "server.key") (codes "server.crt") refl)
                            at5,
                      ))))))))
