-- ===== src/Tunnel/Client.antt =====
-- NewClient, VerifyOnce, connectAndServe, acceptStreams and Run of internal/tunnel/client.go. One attempt to connect is what
-- the network and the libraries do in it: the dial, the TLS handshake, the exporter, the connection, yamux and its streams.
pub mod Serving
pub mod Configured
pub mod Reconnects
use passage.Base.{
  Bytes, List, Map, Option, Bool, Result, ok, err, or_err, wrap_err, refuse_if, ◌>>=◌, ◌>>◌, not,
  if◌then◌else◌, ◌∷◌, [], false, some, none, true, ℕ, ◌*◌,
}
use passage.Base.Int.{ℤ, pos}
use passage.Auth.Crypto.{Ed25519, Mldsa65}
use passage.Auth.Keys.{Pem, KeyFileError, load_privkey_pem, load_pq_privkey_pem}
use passage.Config.Types.{ClientConfig}
use passage.Config.Client.{service_names}
use passage.Go.Files.{Files}
use passage.Go.Io.{Conn}
use passage.Proto.Messages.{Open, auth_label, exporter_length}
use passage.Mux.{Yamux}
use passage.Proto.Framing.{Json}
use passage.Tunnel.Tls.{TlsError, ConnectionState, parse_fingerprint, verify_connection}
use passage.Tunnel.Handshake.{Codecs, ClientError, client_handshake}
use passage.Tunnel.Proxy.{handle_stream}
use passage.Tunnel.Backoff.{
  cancelled, finished, Round, run_delays, failed_cancelled, failed, failed_asleep,
}
use passage.Go.Time.{second}
use passage.Mux

-- The mux.Config of connectAndServe: 30 * time.Second and 5 * time.Minute.
abbrev pub client_mux_config : Mux.Config
client_mux_config = record {
  heartbeat_interval = pos (30 * second);
  idle_timeout = pos (300 * second);
}

pub data NewClientError : Type 0 where
  load_privkey load_pq_privkey : KeyFileError → NewClientError
  bad_fingerprint : TlsError → NewClientError

-- The client; `want` is what the callback of its tls.Config compares with.
pub record Client (PrivateKey : Type 0) : Type 0 where
  pub cfg : ClientConfig
  pub want : Bytes
  pub priv : Bytes
  pub pq_priv : PrivateKey

pub data DriveError : Type 0 where
  dial_failed tls_failed exporter_failed yamux_failed accept_failed : DriveError
  refused_by_callback : TlsError → DriveError
  handshake_failed : ClientError → DriveError

-- `tls` is what the server shows in the handshake, if that gets to VerifyConnection; `exporter` is ExportKeyingMaterial, by label,
-- context (`none` for nil) and length; `default_config` is yamux.DefaultConfig(), and `yamux_client` tells which settings
-- yamux.Client accepts over the connection; `streams` are the streams that
-- AcceptStream returns before its error, and `stopped` whether the context is done at that error.
pub record Attempt (Rest : Type 0) : Type 0 where
  pub dials : Bool
  pub tls : Option ConnectionState
  pub exporter : Bytes → Option Bytes → ℕ → Option Bytes
  pub conn : Conn
  pub now : ℤ
  pub default_config : Yamux Rest
  pub yamux_client : Yamux Rest → Option (Unit {0})
  pub streams : List Conn
  pub stopped : Bool

-- What connectAndServe leaves: its error, whether a connection is still open, and, if it got to acceptStreams, what the
-- client dialled for each stream.
pub record Left : Type 0 where
  pub result : Result DriveError (Unit {0})
  pub conn_open : Bool
  pub served : Option (List (Option Bytes))

-- One turn of Run's loop: whether the context is done before the attempt and after it, the attempt, the random number of
-- jitterDelay, and whether the sleep ends before the context.
pub record Turn (Rest : Type 0) : Type 0 where
  pub done_before : Bool
  pub attempt : Attempt Rest
  pub done_after : Bool
  pub add : ℤ
  pub slept : Bool

abbrev round_of_result : {Rest : Type 0} → Turn Rest → Result DriveError (Unit {0}) → Round
round_of_result t (ok _) = finished
round_of_result t (err e) =
    if t.done_after then failed_cancelled else if t.slept then failed t.add else failed_asleep t.add

module _ (pem : Pem) (ed : Ed25519) {PublicKey PrivateKey : Type 0}
    (pq : Mldsa65 PublicKey PrivateKey) where
  unfoldable pub new_client : Files → ClientConfig → Result NewClientError (Client PrivateKey)
  new_client f cfg = do
    priv ← wrap_err load_privkey (load_privkey_pem pem ed f cfg.identity.privkey_file)
    keys ← wrap_err load_pq_privkey (load_pq_privkey_pem pem pq f cfg.identity.pq_privkey_file)
    want ← wrap_err bad_fingerprint (parse_fingerprint cfg.server_fingerprint)
    ok (record { cfg = cfg; want = want; priv = priv; pq_priv = keys.1 })

module _ (sha256 : Bytes → Bytes) (j : Codecs) (jo : Json Open) (ed : Ed25519)
    {PublicKey PrivateKey : Type 0} (pq : Mldsa65 PublicKey PrivateKey) where
  unfoldable pub dialled : Map Bytes → List Conn → List (Option Bytes)
  dialled services [] = []
  dialled services (s ∷ rest) = handle_stream jo services s ∷ dialled services rest

  -- acceptStreams, with the deferred yam.Close(), which closes the connection below.
  unfoldable pub accept_streams : Map Bytes → List Conn → Bool → Left
  unfolding dialled
  accept_streams services streams stopped = record {
    result = if stopped then ok tt else err accept_failed;
    conn_open = false;
    served = some (dialled services streams);
  }

  -- An early return, with the connection open or closed.
  abbrev gave_up : Bool → DriveError → Left
  gave_up still_open e = record { result = err e; conn_open = still_open; served = none }

  -- raw.Close() and tlsConn.Close(): the connection is not open after it.
  abbrev close : Bool → Bool
  close still_open = false

  module _ {Rest : Type 0} where
    -- HandshakeContext with the callback, and ExportKeyingMaterial.
    unfoldable pub tls_handshake : Client PrivateKey → Attempt Rest → Result DriveError (Unit {0})
    tls_handshake c a = do
      cs ← or_err a.tls tls_failed
      wrap_err refused_by_callback (verify_connection sha256 c.want cs)

    -- runHandshake, on what the connection holds.
    unfoldable pub handshake : Client PrivateKey → Attempt Rest → Bytes → Result DriveError Bytes
    handshake c a exporter =
        wrap_err handshake_failed
          (client_handshake j ed pq c.priv c.pq_priv c.cfg.identity.id
            (service_names c.cfg.services) exporter a.now a.conn).0

    -- The deferred raw.Close() closes the connection on every path.
    unfoldable pub verify_once : Client PrivateKey → Attempt Rest → Result DriveError (Unit {0})
    verify_once c a = do
      refuse_if (not a.dials) dial_failed
      tls_handshake c a
      exporter ← or_err (a.exporter auth_label none exporter_length) exporter_failed
      _ ← handshake c a exporter
      ok tt

    unfoldable pub after_yamux : Client PrivateKey → Attempt Rest → Option (Unit {0}) → Left
    unfolding accept_streams
    after_yamux c a (some session) = accept_streams c.cfg.services a.streams a.stopped
    after_yamux c a none = gave_up (close true) yamux_failed

    unfoldable pub after_handshake :
        Client PrivateKey → Attempt Rest → Result DriveError Bytes → Left
    unfolding after_yamux
    after_handshake c a (err e) = gave_up (close true) e
    after_handshake c a (ok session_id) =
        after_yamux c a (Mux.client a.default_config a.yamux_client client_mux_config)

    unfoldable pub after_exporter : Client PrivateKey → Attempt Rest → Option Bytes → Left
    unfolding after_handshake
    after_exporter c a none = gave_up (close true) exporter_failed
    after_exporter c a (some exporter) = after_handshake c a (handshake c a exporter)

    unfoldable pub after_tls :
        Client PrivateKey → Attempt Rest → Result DriveError (Unit {0}) → Left
    unfolding after_exporter
    after_tls c a (err e) = gave_up (close true) e
    after_tls c a (ok _) = after_exporter c a (a.exporter auth_label none exporter_length)

    -- After a failed dial there is no connection.
    unfoldable pub connect_and_serve : Client PrivateKey → Attempt Rest → Left
    unfolding after_tls
    connect_and_serve c a =
        if a.dials then after_tls c a (tls_handshake c a) else gave_up false dial_failed

    unfoldable pub round_of : Client PrivateKey → Turn Rest → Round
    unfolding connect_and_serve
    round_of c t =
        if t.done_before
        then cancelled
        else round_of_result t (connect_and_serve c t.attempt).result

    unfoldable pub rounds_of : Client PrivateKey → List (Turn Rest) → List Round
    rounds_of c [] = []
    rounds_of c (t ∷ rest) = round_of c t ∷ rounds_of c rest

    -- The delays that Run sleeps.
    unfoldable pub run_client : Client PrivateKey → List (Turn Rest) → List ℤ
    unfolding rounds_of
    run_client c turns = run_delays c.cfg.reconnect (rounds_of c turns)
