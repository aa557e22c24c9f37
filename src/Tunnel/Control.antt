-- ===== src/Tunnel/Control.antt =====
-- handleControl of internal/tunnel/server.go from the accepted connection to the session, with newSessionID, and auth.NewNonce of
-- internal/auth/auth.go. What the network, the clocks and the libraries do for one connection is a value.
pub mod Authorized
pub mod Completes
pub mod History
pub mod Established
use passage.Base.Int.{ℤ, pos_part}
use passage.Go.Time.{Time}
use passage.Go.Io.{Conn}
use passage.Base.{
  Bool, ℕ, Bytes, Option, List, Result, err, ◌>>◌, lookup, ok, refuse_if, not, ◌>>=◌, or_err,
  wrap_err, false, none,
}
use passage.Config.Types.{LimitsConfig}
use passage.Tunnel.Admission.{
  Control, Outcome, session_ran, not_tls, tls_failed, exporter_failed, handshake_failed, mux_failed,
}
use passage.Tunnel.Handshake.{Codecs, Admitted, server_handshake}
use passage.Auth.Crypto.{Ed25519, Mldsa65}
use passage.Tunnel.Sessions.{State, Listener, open_session, close_session}
use passage.Go.Hex.{encode_to_string}
use passage.Proto.Messages.{auth_label, exporter_length}
use passage.Tunnel.Tls.{ConnectionState, Settings}
use passage.Mux.{Yamux}
use passage.Tunnel.Server.{Tables, or_nil}
use passage.Go.Channel.{receive}
use passage.Mux
use passage.Tunnel.Admission

-- One connection: whether it is a *tls.Conn; what its client shows, if the TLS handshake gets to VerifyConnection; ExportKeyingMaterial, by
-- label, context (`none` for nil) and length; the connection under TLS; what rand.Read puts into a buffer of a size, in NewNonce and in newSessionID; the two
-- readings of the clock; and which settings yamux.Server accepts over it.
pub record Incoming (Rest : Type 0) : Type 0 where
  pub is_tls : Bool
  pub tls : Option ConnectionState
  pub exporter : Bytes → Option Bytes → ℕ → Option Bytes
  pub conn : Conn
  pub nonce_bytes : ℕ → Option Bytes
  pub sid_bytes : ℕ → Bytes
  pub hello_time : ℤ
  pub now : Time
  pub yamux_server : Yamux Rest → Option (Unit {0})

-- `read` is rand.Read into a fresh buffer of that size.
unfoldable pub new_nonce : (ℕ → Option Bytes) → Option Bytes
new_nonce read = read 32

-- The error of rand.Read is ignored.
unfoldable pub new_session_id : (ℕ → Bytes) → Bytes
new_session_id read = encode_to_string (read 12)

-- What every connection shares: the semaphore with the connection, and the table of sessions.
pub record Shared : Type 0 where
  pub control : Control
  pub sessions : State

unfoldable pub mux_config : LimitsConfig → Mux.Config
mux_config l = record { heartbeat_interval = l.heartbeat_interval; idle_timeout = l.idle_timeout }

module _ (j : Codecs) (ed : Ed25519) {PublicKey PrivateKey : Type 0}
    (pq : Mldsa65 PublicKey PrivateKey) {Rest : Type 0} (default_config : Yamux Rest) where
  -- handleControl up to runSession: who is admitted, or where it returned.
  unfoldable pub admit :
      Settings → LimitsConfig → Tables PublicKey → Incoming Rest → Result Outcome Admitted
  unfolding new_nonce new_session_id mux_config
  admit settings limits s r = do
    refuse_if (not r.is_tls) not_tls
    cs ← or_err r.tls tls_failed
    wrap_err (λ _. tls_failed) (settings.verify cs)
    exporter ← or_err (r.exporter auth_label none exporter_length) exporter_failed
    who ←
        wrap_err (λ _. handshake_failed)
          (server_handshake j ed pq s exporter (new_nonce r.nonce_bytes)
            (new_session_id r.sid_bytes) r.hello_time r.now r.conn).0
    _ ← or_err (Mux.server default_config r.yamux_server (mux_config limits)) mux_failed
    ok who

  -- The table after runSession has been entered: `ns` is the new *serverSession.
  unfoldable pub run_session :
      (List Listener → Bytes → Bool)
      → LimitsConfig
      → Tables PublicKey
      → ℕ
      → Admitted
      → State
      → State
  run_session free limits s ns (id, sid, requested) st =
      (open_session free (pos_part limits.max_streams_per_client) id sid ns
        (or_nil (lookup id s.allowed)) requested st).1

  -- How handleControl leaves the shared state while its session runs, or at its return without one.
  unfoldable pub after_admit :
      (List Listener → Bytes → Bool)
      → LimitsConfig
      → Tables PublicKey
      → ℕ
      → Result Outcome Admitted
      → Shared
      → Shared
  unfolding run_session receive
  after_admit free limits s ns (err o) t = record t {
    control = Admission.handle_control o t.control;
  }
  after_admit free limits s ns (ok who) t = record {
    control = record t.control { handshake_sem = receive t.control.handshake_sem };
    sessions = run_session free limits s ns who t.sessions;
  }

  unfoldable pub handle_control :
      (List Listener → Bytes → Bool)
      → Settings
      → LimitsConfig
      → Tables PublicKey
      → ℕ
      → Incoming Rest
      → Shared
      → Shared
  unfolding after_admit
  handle_control free settings limits s ns r t =
      after_admit free limits s ns (admit settings limits s r) t

  -- The deferred calls after a session: those of runSession, then tlsConn.Close().
  unfoldable pub at_return : ℕ → Result Outcome Admitted → Shared → Shared
  at_return ns (err o) t = t
  at_return ns (ok (id, sid, requested)) t = record {
    control = record t.control { conn_open = false };
    sessions = close_session id ns t.sessions;
  }
