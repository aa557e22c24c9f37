-- ===== src/Tunnel/Control/Completes.antt =====
-- An admission and its session, step by step.
use passage.Base.Int.{pos_part}
use passage.Tunnel.Control.{
  Incoming, Shared, admit, handle_control, run_session, new_nonce, new_session_id, mux_config,
  after_admit,
}
use passage.Tunnel.Sessions.{Listener}
use passage.Tunnel.Sessions.Others.{lookup-open_session_self}
use passage.Mux.{Yamux}
use passage.Tunnel.Tls.{Settings, ConnectionState}
use passage.Tunnel.Handshake.{Codecs, server_handshake, Admitted}
use passage.Go.Io.{Conn}
use passage.Base.{
  Bytes, List, ℕ, Bool, length, ◌≡◌, true, ◌≢◌, [], ok, some, arith, lookup, ap, refl, false, none,
}
use passage.Auth.Crypto.{Ed25519, Mldsa65}
use passage.Tunnel.Server.{Tables, or_nil}
use passage.Config.Types.{LimitsConfig}
use passage.Go.Hex.{length-encode_to_string}
use passage.Tunnel.Sessions.Replacement.{Listenable, wanted, opened, store-open_session_self}
use passage.Proto.Messages.{auth_label, exporter_length}
use passage.Mux

pub new_session_id-ne : (read : ℕ → Bytes) → length (read 12) ≡ 12 → new_session_id read ≢ []
unfolding new_session_id
new_session_id-ne read h e = ground (arith, length-encode_to_string (read 12), ap length e)

module _ (j : Codecs) (ed : Ed25519) {PublicKey PrivateKey : Type 0}
    (pq : Mldsa65 PublicKey PrivateKey) {Rest : Type 0} (default_config : Yamux Rest) where
  -- What an admission takes.
  pub admit_completes :
      (settings : Settings) (limits : LimitsConfig) (s : Tables PublicKey) (r : Incoming Rest)
      (cs : ConnectionState) (exporter nonce : Bytes) (who : Admitted) (d : Conn)
      → r.is_tls ≡ true
      → r.tls ≡ some cs
      → settings.verify cs ≡ ok tt
      → (r.exporter auth_label none exporter_length) ≡ some exporter
      → r.nonce_bytes 32 ≡ some nonce
      → server_handshake j ed pq s exporter
          (some nonce)
          (new_session_id r.sid_bytes)
          r.hello_time
          r.now
          r.conn
        ≡ (ok who, d)
      → Mux.server default_config r.yamux_server (mux_config limits) ≡ some tt
      → admit j ed pq default_config settings limits s r ≡ ok who
  unfolding admit new_nonce
  admit_completes settings limits s r cs exporter nonce who d over shown v x n h y =
      rw (over, shown, v, x, n, h, y) refl

  -- The session of an admitted client.
  pub handle_control-admits :
      (free : List Listener → Bytes → Bool) (settings : Settings) (limits : LimitsConfig)
      (s : Tables PublicKey) (ns : ℕ) (r : Incoming Rest) (t : Shared) (id sid : Bytes)
      (requested : List Bytes)
      → admit j ed pq default_config settings limits s r ≡ ok (id, sid, requested)
      → lookup id t.sessions.sessions ≢ some ns
      → Listenable free [] (wanted (or_nil (lookup id s.allowed)) requested)
      → (lookup id
            (handle_control j ed pq default_config free settings limits s ns r t).sessions.sessions
          ≡ some ns)
        × ((handle_control j ed pq default_config free settings limits s ns r t).sessions.store ns
            ≡ record {
              id = sid;
              client_id = id;
              cancelled = false;
              yam_closed = false;
              listeners = opened (wanted (or_nil (lookup id s.allowed)) requested);
              stream_sem = record { capacity = pos_part limits.max_streams_per_client; sent = 0 };
            })
  unfolding handle_control after_admit run_session
  handle_control-admits free settings limits s ns r t id sid requested e other h = rw e (
    lookup-open_session_self free (pos_part limits.max_streams_per_client) id sid ns
        (or_nil (lookup id s.allowed)) requested t.sessions,
    store-open_session_self free (pos_part limits.max_streams_per_client) id sid ns
        (or_nil (lookup id s.allowed)) requested t.sessions other h,
  )
