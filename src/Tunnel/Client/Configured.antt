-- ===== src/Tunnel/Client/Configured.antt =====
-- The tls.Config of a client that NewClient has made.
use passage.Tunnel.Client.{Client, new_client, load_privkey, load_pq_privkey, bad_fingerprint}
use passage.Tunnel.Tls.{client_tls_config, client_settings, parse_fingerprint}
use passage.Auth.Keys.{Pem, load_privkey_pem, load_pq_privkey_pem}
use passage.Auth.Crypto.{Ed25519, Mldsa65}
use passage.Config.Types.{ClientConfig}
use passage.Go.Files.{Files}
use passage.Base.{refl, Bytes, ◌≡◌, ok, >>=-eq-ok, wrap_err, wrap_err-eq-ok, subst}

module _ (pem : Pem) (ed : Ed25519) {PublicKey PrivateKey : Type 0}
    (pq : Mldsa65 PublicKey PrivateKey) where
  -- If NewClient succeeds, clientTLSConfig has given the settings whose callback compares with the field `want`, and the two private keys are those
  -- of the configured files.
  pub new_client-client_tls_config :
      (sha256 : Bytes → Bytes) (f : Files) (cfg : ClientConfig) (c : Client PrivateKey)
      → new_client pem ed pq f cfg ≡ ok c
      → (client_tls_config sha256 cfg.server_fingerprint ≡ ok (client_settings sha256 c.want))
        × (load_privkey_pem pem ed f cfg.identity.privkey_file ≡ ok c.priv)
        × (c.cfg ≡ cfg)
  unfolding new_client client_tls_config
  new_client-client_tls_config sha256 f cfg c h =
      let (priv, p, h) =
        >>=-eq-ok (wrap_err load_privkey (load_privkey_pem pem ed f cfg.identity.privkey_file)) _
          h in
      let (keys, q, h) =
        >>=-eq-ok
          (wrap_err load_pq_privkey (load_pq_privkey_pem pem pq f cfg.identity.pq_privkey_file)) _
          h in
      let (want, w, h) =
        >>=-eq-ok (wrap_err bad_fingerprint (parse_fingerprint cfg.server_fingerprint)) _ h in
      let parsed = wrap_err-eq-ok bad_fingerprint (parse_fingerprint cfg.server_fingerprint) w in
      let made : record { cfg = cfg; want = want; priv = priv; pq_priv = keys.1 } ≡ c = cc in
      subst
        (λ (c : Client PrivateKey).
          (client_tls_config sha256 cfg.server_fingerprint ≡ ok (client_settings sha256 c.want))
          × (load_privkey_pem pem ed f cfg.identity.privkey_file ≡ ok c.priv)
          × (c.cfg ≡ cfg))
        made
        (
          rw parsed refl,
          wrap_err-eq-ok load_privkey (load_privkey_pem pem ed f cfg.identity.privkey_file) p,
          refl,
        )
