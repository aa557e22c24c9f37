-- ===== src/Tunnel/Run.antt =====
-- NewServer and Server.Run of internal/tunnel/server.go as a whole: the certificate and the tables, then the listener and the accept loop
-- with the goroutines that give their slots back.
pub mod Served
use passage.Base.{
  ◌∷◌, [], Bool, List, Bytes, Option, false, if◌then◌else◌, Result, ltb, ◌||◌, some, true, err, ok,
  ◌>>=◌, none, wrap_err,
}
use passage.Config.Types.{ServerConfig}
use passage.Tunnel.Tls.{Settings, Certificate, TlsError, server_tls_config}
use passage.Tunnel.Server.{Tables, NewServerError, new_server}
use passage.Tunnel.Admission.{Server, Outcome, accept, leave, start}
use passage.Go.Files.{Files}
use passage.Auth.Keys.{Base64}
use passage.Auth.Crypto.{Mldsa65}

-- The fields of a Server that NewServer sets and nothing changes.
pub record Configured (PublicKey : Type 0) : Type 0 where
  pub cfg : ServerConfig
  pub tls_cfg : Settings
  pub tables : Tables PublicKey

pub data MakeError : Type 0 where
  bad_tls : TlsError → MakeError
  bad_clients : NewServerError → MakeError

module _ (load_x509_key_pair : Files → Bytes → Bytes → Option Certificate) (b64 : Base64)
    {PublicKey PrivateKey : Type 0} (pq : Mldsa65 PublicKey PrivateKey) where
  -- All of NewServer.
  unfoldable pub make_server : Files → ServerConfig → Result MakeError (Configured PublicKey)
  make_server f cfg = do
    tls_cfg ← wrap_err bad_tls (server_tls_config load_x509_key_pair f cfg.tls.cert cfg.tls.key)
    tables ← wrap_err bad_clients (new_server b64 pq cfg)
    ok (record { cfg = cfg; tls_cfg = tls_cfg; tables = tables })

pub data RunError : Type 0 where
  listen_failed : RunError

-- What happens while the loop runs: a connection; an error of Accept, with whether it is net.ErrClosed and whether the context is done;
-- and the end of a handleControl goroutine, if one is in flight.
pub data Event : Type 0 where
  connects : Event
  accept_fails : Bool → Bool → Event
  ends : Outcome → Event

abbrev pub ended : Outcome → Server → Server
ended o s = if ltb 0 s.pending then leave o s else s

-- The loop: whether it has returned, and the state. Any other error of Accept is logged.
unfoldable pub accept_loop : List Event → Server → Bool × Server
accept_loop [] s = (false, s)
accept_loop (connects ∷ rest) s = accept_loop rest (accept s)
accept_loop (ends o ∷ rest) s = accept_loop rest (ended o s)
accept_loop (accept_fails is_closed ctx_done ∷ rest) s =
    let later = accept_loop rest s in if is_closed || ctx_done then (true, s) else later

abbrev pub of_loop : Bool × Server → Option (Result RunError (Unit {0})) × Server
of_loop (true, s) = (some (ok tt), s)
of_loop (false, s) = (none, s)

-- What Run has returned, if it has, and the state. `listens` tells whether lc.Listen succeeds.
unfoldable pub run : Bool → List Event → Option (Result RunError (Unit {0})) × Server
unfolding accept_loop
run listens events =
    if listens then of_loop (accept_loop events start) else (some (err listen_failed), start)
