-- ===== src/Tunnel/Control/Established.antt =====
-- A client and the server put together, from the dial to the session.
use passage.Base.Int.{pos_part}
use passage.Tunnel.Control.Completes.{admit_completes, handle_control-admits, new_session_id-ne}
use passage.Tunnel.Control.{Incoming, Shared, admit, handle_control, new_session_id, mux_config}
use passage.Tunnel.Sessions.{Listener}
use passage.Mux.{Yamux}
use passage.Mux.Intervals.{IsSound, to_yamux_config-IsSound}
use passage.Tunnel.Tls.{ConnectionState, Certificate, server_settings, client_settings}
use passage.Tunnel.Tls.Settled.{IsNegotiated, IsPinned-shown, server-accepts}
use passage.Tunnel.Tls.Pinning.{IsPinned}
use passage.Tunnel.Client.{Client, client_mux_config, connect_and_serve, dialled}
use passage.Tunnel.Client.Serving.{connect_and_serve_iff}
use passage.Tunnel.Handshake.{Codecs}
use passage.Tunnel.Handshake.Agreement.{Attempt, Bodies, IsHonest, IsEncoded, handshake_agrees}
use passage.Base.{
  Bytes, List, ℕ, Bool, length, ◌≡◌, true, ◌≢◌, [], ok, some, lookup, ◌++◌, ap, suc, refl, wrap_err,
  false, Option, none,
}
use passage.Proto.Framing.{Json, frame}
use passage.Proto.Messages.{Open, auth_label, exporter_length}
use passage.Auth.Crypto.{Ed25519, Mldsa65}
use passage.Config.Client.{service_names}
use passage.Tunnel.Server.{Tables, or_nil}
use passage.Config.Types.{LimitsConfig}
use passage.Base.Int.{pos, ◌≤ℤ◌}
use passage.Tunnel.Sessions.Replacement.{Listenable, wanted, opened}
use passage.Mux
use passage.Tunnel.Client

module _ (sha256 : Bytes → Bytes) (j : Codecs) (jo : Json Open) (ed : Ed25519)
    {PublicKey PrivateKey : Type 0} (pq : Mldsa65 PublicKey PrivateKey) {Rest : Type 0}
    (default_config : Yamux Rest) where
  -- What both sides bind the handshake to, by what one of them exports.
  abbrev pub bound_to : (Bytes → Option Bytes → ℕ → Bytes) → Bytes
  bound_to keying_material = keying_material auth_label none exporter_length

  -- The handshake of a client's attempt with what the server has for it.
  abbrev pub attempt_of :
      Client PrivateKey
      → Client.Attempt Rest
      → Incoming Rest
      → Bytes
      → Bytes
      → Bytes
      → Attempt PrivateKey
  attempt_of c a r exporter nonce pq_sig = record {
    nonce = nonce;
    exporter = exporter;
    sid = new_session_id r.sid_bytes;
    hello_time = r.hello_time;
    now = r.now;
    priv = c.priv;
    pq_priv = c.pq_priv;
    id = c.cfg.identity.id;
    client_time = a.now;
    requested = service_names c.cfg.services;
    pq_sig = pq_sig;
  }

  -- One connection between the two that works: crypto/tls negotiates, and for one label, context and length it exports the same bytes on both sides, each side receives what the
  -- other sends in the handshake, the writes succeed, the random generators and yamux do not fail.
  pub record IsLink (cert : Certificate) (s : Tables PublicKey) (c : Client PrivateKey)
      (a : Client.Attempt Rest) (r : Incoming Rest) (pk : Bytes) (pq_pk : PublicKey) : Type 0 where
    pub dialled : a.dials ≡ true
    pub over_tls : r.is_tls ≡ true
    pub version : ℕ
    pub at_server : ConnectionState
    pub at_client : ConnectionState
    pub seen_by_server : r.tls ≡ some at_server
    pub seen_by_client : a.tls ≡ some at_client
    pub negotiated :
        IsNegotiated
          (server_settings cert)
          (client_settings sha256 c.want)
          version
          at_server
          at_client
    pub keying_material : Bytes → Option Bytes → ℕ → Bytes
    pub server_exports :
        (label : Bytes) (context : Option Bytes) (n : ℕ)
        → r.exporter label context n ≡ some (keying_material label context n)
    pub client_exports :
        (label : Bytes) (context : Option Bytes) (n : ℕ)
        → a.exporter label context n ≡ some (keying_material label context n)
    pub nonce : Bytes
    pub drawn : r.nonce_bytes 32 ≡ some nonce
    pub filled : length (r.sid_bytes 12) ≡ 12
    pub pq_sig : Bytes
    pub bodies : Bodies
    pub honest :
        IsHonest j ed pq s (attempt_of c a r (bound_to keying_material) nonce pq_sig) pk pq_pk
    pub encoded :
        IsEncoded j ed pq (attempt_of c a r (bound_to keying_material) nonce pq_sig) bodies
    pub to_server : Bytes
    pub to_client : Bytes
    pub server_reads : r.conn.incoming ≡ frame bodies.auth ++ to_server
    pub client_reads : a.conn.incoming ≡ frame bodies.hello ++ (frame bodies.accepted ++ to_client)
    pub server_spare : ℕ
    pub client_spare : ℕ
    pub server_writes : r.conn.writes_left ≡ suc (suc (suc (suc server_spare)))
    pub client_writes : a.conn.writes_left ≡ suc (suc client_spare)
    pub keep_alive : pos 1 ≤ℤ default_config.keep_alive_interval
    pub write_timeout : pos 1 ≤ℤ default_config.connection_write_timeout
    pub server_multiplexes : (y : Yamux Rest) → IsSound y → r.yamux_server y ≡ some tt
    pub same_yamux : a.default_config ≡ default_config
    pub client_multiplexes : (y : Yamux Rest) → IsSound y → a.yamux_client y ≡ some tt

  -- A client that has the certificate's fingerprint, whose two registered keys make its signatures, whose time CheckClockSkew takes, and that asks for at
  -- least one service and only for services that it may have, gets its session over a connection that works: handleControl admits it
  -- under its id with the session id that the client is told and exactly the services that it is configured with, the client goes on to serve
  -- streams, and the table of sessions holds the new session for it, which is open and listens on the
  -- addresses of those services, if these are free.
  pub established :
      (free : List Listener → Bytes → Bool) (limits : LimitsConfig) (cert : Certificate)
      (s : Tables PublicKey) (c : Client PrivateKey) (a : Client.Attempt Rest) (r : Incoming Rest)
      (pk : Bytes) (pq_pk : PublicKey) (ns : ℕ) (t : Shared)
      → IsLink cert s c a r pk pq_pk
      → IsPinned sha256 c.want cert.chain
      → lookup c.cfg.identity.id t.sessions.sessions ≢ some ns
      → Listenable free []
          (wanted (or_nil (lookup c.cfg.identity.id s.allowed)) (service_names c.cfg.services))
      → (admit j ed pq default_config (server_settings cert) limits s r
          ≡ ok (c.cfg.identity.id, new_session_id r.sid_bytes, service_names c.cfg.services))
        × ((connect_and_serve sha256 j jo ed pq c a).served
            ≡ some (dialled sha256 j jo ed pq c.cfg.services a.streams))
        × (lookup c.cfg.identity.id
              (handle_control j ed pq default_config free
                (server_settings cert)
                limits
                s
                ns
                r
                t).sessions.sessions
            ≡ some ns)
        × ((handle_control j ed pq default_config free
                (server_settings cert)
                limits
                s
                ns
                r
                t).sessions.store
              ns
            ≡ record {
              id = new_session_id r.sid_bytes;
              client_id = c.cfg.identity.id;
              cancelled = false;
              yam_closed = false;
              listeners = opened (
                  wanted
                    (or_nil (lookup c.cfg.identity.id s.allowed))
                    (service_names c.cfg.services));
              stream_sem = record { capacity = pos_part limits.max_streams_per_client; sent = 0 };
            })
  established free limits cert s c a r pk pq_pk ns t l pinned other h =
      let both =
        handshake_agrees j ed pq s (attempt_of c a r (bound_to l.keying_material) l.nonce l.pq_sig)
          pk pq_pk l.bodies r.conn a.conn l.to_server l.to_client l.server_spare l.client_spare
          l.honest l.encoded (new_session_id-ne r.sid_bytes l.filled) l.server_reads l.client_reads
          l.server_writes l.client_writes in
      let (shown, curve) =
        IsPinned-shown sha256 c.want cert l.version l.at_server l.at_client l.negotiated pinned in
      let admitted =
        admit_completes j ed pq default_config (server_settings cert) limits s r l.at_server
          (bound_to l.keying_material) l.nonce
          (c.cfg.identity.id, new_session_id r.sid_bytes, service_names c.cfg.services) _ l.over_tls
          l.seen_by_server
          (server-accepts sha256 c.want cert l.version l.at_server l.at_client l.negotiated)
          (l.server_exports auth_label none exporter_length) l.drawn both.0
          (unfold Mux.server in
            l.server_multiplexes _
              (to_yamux_config-IsSound default_config (mux_config limits) l.keep_alive
                l.write_timeout).0) in
      let (entered, session) =
        handle_control-admits j ed pq default_config free (server_settings cert) limits s ns r t
          c.cfg.identity.id (new_session_id r.sid_bytes) (service_names c.cfg.services) admitted
          other h in
      (
        admitted,
        (connect_and_serve_iff sha256 j jo ed pq c a _).1 (
          record {
            dialled = l.dialled;
            shown = l.at_client;
            shown_in_tls = l.seen_by_client;
            pinned = shown;
            curve = curve;
            exporter = (bound_to l.keying_material);
            exported = l.client_exports auth_label none exporter_length;
            session_id = new_session_id r.sid_bytes;
            accepted =
                unfold Client.handshake in ap (λ v. wrap_err Client.handshake_failed v.0) both.1;
          },
          unfold Mux.client in
              l.client_multiplexes _
                (to_yamux_config-IsSound a.default_config client_mux_config
                  (rw l.same_yamux l.keep_alive) (rw l.same_yamux l.write_timeout)).0,
          refl,
        ),
        entered,
        session,
      )
