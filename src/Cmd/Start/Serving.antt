-- ===== src/Cmd/Start/Serving.antt =====
-- What a started server has checked and loaded.
use passage.Cmd.{Shell, make_server_failed}
use passage.Cmd.Start.{configured_server, run_server, of_config, of_run}
use passage.Config.Load.{load_server, LoadError}
use passage.Config.Load.Loaded.{load_server_iff}
use passage.Config.Types.{ServerConfig, ClientEntry}
use passage.Config.Server.Valid.{IsValid, identified}
use passage.Tunnel.Run.{
  Configured, Event, make_server, run, bad_tls, bad_clients, accept_loop, of_loop,
}
use passage.Tunnel.Tls.{Certificate, Settings, server_settings, server_tls_config, load_keypair}
use passage.Tunnel.Server.{new_server}
use passage.Tunnel.Server.Loading.{IsLoaded, ids, new_server-IsLoaded}
use passage.Base.{
  Bytes, List, Bool, keys, Option, ◌≡◌, ◌∷◌, ap, [], Result, ok, refl, some, >>=-eq-ok, All, true,
  wrap_err-eq-ok, err, or_err, wrap_err, ◌↔◌, Any, or_err-eq-ok, arith, Result-cases, inl, inr,
  is_empty, subst, Distinct, false, ◌∙◌, sym,
}
use passage.Go.Files.{Files}
use passage.Auth.Keys.{Base64}
use passage.Auth.Crypto.{Mldsa65}
use passage.Tunnel.Run.Served.{IsFatal, accept_loop_iff}
use passage.Tunnel.Admission.{Server, start}

keys-identified : (cs : List ClientEntry) → keys (identified cs) ≡ ids cs
keys-identified [] = refl
keys-identified (c ∷ cs) = ap (λ rest. c.id ∷ rest) (keys-identified cs)

module _ (cidr_ok : Bytes → Bool) (decode : Bytes → Option ServerConfig)
    (load_x509_key_pair : Files → Bytes → Bytes → Option Certificate) (b64 : Base64)
    {PublicKey PrivateKey : Type 0} (pq : Mldsa65 PublicKey PrivateKey) where
  -- The server has a valid configuration and the TLS settings for the certificate in its files, and its tables hold
  -- the decoded keys and the services of every configured client.
  pub record IsReady (f : Files) (srv : Configured PublicKey) : Type 0 where
    pub valid : IsValid cidr_ok srv.cfg
    pub cert : Certificate
    pub pair : load_x509_key_pair f srv.cfg.tls.cert srv.cfg.tls.key ≡ some cert
    pub settings : srv.tls_cfg ≡ server_settings cert
    pub loaded : All (IsLoaded b64 pq srv.tables) srv.cfg.clients

  server_tls_config-eq-ok :
      (f : Files) (cert_file key_file : Bytes) (settings : Settings)
      → server_tls_config load_x509_key_pair f cert_file key_file ≡ ok settings
      → (cert : Certificate) × (load_x509_key_pair f cert_file key_file ≡ some cert)
        × (settings ≡ server_settings cert)
  unfolding server_tls_config
  server_tls_config-eq-ok f cert_file key_file settings h =
      let (cert, e, h) =
        >>=-eq-ok (or_err (load_x509_key_pair f cert_file key_file) load_keypair) _ h in
      (cert, or_err-eq-ok (load_x509_key_pair f cert_file key_file) load_keypair e, ground arith)

  make_server-IsReady :
      (f : Files) (cfg : ServerConfig) (srv : Configured PublicKey)
      → IsValid cidr_ok cfg
      → make_server load_x509_key_pair b64 pq f cfg ≡ ok srv
      → (srv.cfg ≡ cfg) × IsReady f srv
  unfolding make_server
  make_server-IsReady f cfg srv v h =
      let (settings, t, h) =
        >>=-eq-ok
          (wrap_err bad_tls (server_tls_config load_x509_key_pair f cfg.tls.cert cfg.tls.key)) _
          h in
      let (tables, n, h) = >>=-eq-ok (wrap_err bad_clients (new_server b64 pq cfg)) _ h in
      let (cert, pair, e) =
        server_tls_config-eq-ok f cfg.tls.cert cfg.tls.key settings (wrap_err-eq-ok bad_tls _ t) in
      let made : record { cfg = cfg; tls_cfg = settings; tables = tables } ≡ srv = cc in
      subst (λ srv. (srv.cfg ≡ cfg) × IsReady f srv) made
        (
          refl,
          record {
            valid = v;
            cert = cert;
            pair = pair;
            settings = e;
            loaded =
                new_server-IsLoaded b64 pq cfg tables
                  (subst Distinct (keys-identified cfg.clients) v.ids_distinct)
                  (wrap_err-eq-ok bad_clients _ n);
          },
        )

  of_config-eq-ok :
      (s : Shell) (r : Result LoadError ServerConfig) (srv : Configured PublicKey)
      → of_config cidr_ok decode load_x509_key_pair b64 pq s r ≡ ok srv
      → (cfg : ServerConfig) × (r ≡ ok cfg)
        × (make_server load_x509_key_pair b64 pq s.files cfg ≡ ok srv)
  of_config-eq-ok s (ok cfg) srv h = (cfg, refl, wrap_err-eq-ok make_server_failed _ h)
  of_config-eq-ok s (err e) srv h = absurd (cc)

  of_loop_iff :
      (srv made : Configured PublicKey) (returned : Bool) (r : Bool × Server)
      → of_run cidr_ok decode load_x509_key_pair b64 pq made (of_loop r).0 ≡ ok (srv, returned)
      → (made ≡ srv) × (returned ≡ r.0)
  of_loop_iff srv made returned (true, s) h = ground arith
  of_loop_iff srv made returned (false, s) h = ground arith

  of_run_iff :
      (srv made : Configured PublicKey) (returned listens : Bool) (events : List Event)
      → of_run cidr_ok decode load_x509_key_pair b64 pq made (run listens events).0
        ≡ ok (srv, returned)
      → (made ≡ srv) × (listens ≡ true) × ((returned ≡ true) ↔ Any IsFatal events)
  unfolding run
  of_run_iff srv made returned true events h =
      let (m, e) = of_loop_iff srv made returned (accept_loop events start) h in
      (m, refl, rw e (accept_loop_iff events start))
  of_run_iff srv made returned false events h = absurd (cc)

  -- `passage server` gets to take connections only with a configuration file that LoadServer takes and a listener that can be opened,
  -- and the server that then runs is ready.
  pub run_server-IsReady :
      (path : Bytes) (listens : Bool) (events : List Event) (s : Shell) (srv : Configured PublicKey)
      (returned : Bool)
      → (run_server cidr_ok decode load_x509_key_pair b64 pq (some path) listens events s).0
        ≡ ok (srv, returned)
      → (load_server cidr_ok decode s.files path ≡ ok srv.cfg)
        × IsReady s.files srv
        × (listens ≡ true)
        × ((returned ≡ true) ↔ Any IsFatal events)
  unfolding run_server configured_server
  run_server-IsReady path listens events s srv returned h =
      elim (Result-cases (
        of_config cidr_ok decode load_x509_key_pair b64 pq s
          (load_server cidr_ok decode s.files path))) [
            | inl (made, e) ↦
                let given : is_empty path ≡ false = ground arith in
                let (same_, opened, ended) =
                  of_run_iff srv made returned listens events (ground arith) in
                let (cfg, l, m) =
                  of_config-eq-ok s (load_server cidr_ok decode s.files path) made e in
                let (_, raw, _, _, _, v) = (load_server_iff cidr_ok decode s.files path cfg).0 l in
                let (c, ready) = make_server-IsReady s.files cfg made v m in
                (
                  subst (λ srv. load_server cidr_ok decode s.files path ≡ ok srv.cfg) same_
                      (l ∙ ap ok (sym c)),
                  subst (IsReady s.files) same_ ready,
                  opened,
                  ended,
                )
            | inr (_, refused) ↦ absurd (ground arith)
          ]
