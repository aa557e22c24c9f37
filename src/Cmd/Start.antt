-- ===== src/Cmd/Start.antt =====
-- runServer and runClient of cmd/passage/main.go.
pub mod Serving
use passage.Cmd
use passage.Cmd.{
  Cmd, Shell, ◌>>=◌, ◌>>◌, lift, refuse_empty, bad_flags, no_config, load_config,
  make_server_failed, run_failed, CmdError,
}
use passage.Cmd.Verify.{configured_client}
use passage.Config.Load.{load_server, LoadError}
use passage.Tunnel.Client.{Client, Turn}
use passage.Tunnel.Run.{Configured, Event, RunError, MakeError, make_server, run}
use passage.Tunnel.Tls.{Certificate, server_settings}
use passage.Base.{
  Bytes, Bool, Option, List, Result, ok, or_err, false, wrap_err, err, some, true, none,
}
use passage.Config.Types.{ServerConfig, ClientConfig}
use passage.Go.Files.{Files}
use passage.Auth.Keys.{Base64, Pem}
use passage.Auth.Crypto.{Mldsa65, Ed25519}
use passage.Tunnel.Handshake.{Codecs}
use passage.Proto.Framing.{Json}
use passage.Proto.Messages.{Open}
use passage.Base.Int.{ℤ}
use passage.Tunnel.Client

module _ (cidr_ok : Bytes → Bool) (decode : Bytes → Option ServerConfig)
    (load_x509_key_pair : Files → Bytes → Bytes → Option Certificate) (b64 : Base64)
    {PublicKey PrivateKey : Type 0} (pq : Mldsa65 PublicKey PrivateKey) where
  abbrev of_config : Shell → Result LoadError ServerConfig → Result CmdError (Configured PublicKey)
  of_config s (ok cfg) =
      wrap_err make_server_failed (make_server load_x509_key_pair b64 pq s.files cfg)
  of_config s (err e) = err (load_config e)

  -- LoadServer and NewServer.
  unfoldable pub configured_server : Bytes → Cmd (Configured PublicKey)
  configured_server path s = (of_config s (load_server cidr_ok decode s.files path), s)

  -- The error that Run has returned, if it has returned one.
  abbrev of_run :
      Configured PublicKey
      → Option (Result RunError (Unit {0}))
      → Result CmdError (Configured PublicKey × Bool)
  of_run srv none = ok (srv, false)
  of_run srv (some (ok _)) = ok (srv, true)
  of_run srv (some (err e)) = err (run_failed e)

  -- The server that runs, and whether it has returned, by what the listener does.
  unfoldable pub run_server : Option Bytes → Bool → List Event → Cmd (Configured PublicKey × Bool)
  unfolding configured_server
  run_server flags listens events = do
    path ← lift (or_err flags bad_flags)
    refuse_empty path no_config
    srv ← configured_server path
    lift (of_run srv (run listens events).0)

module _ (decode : Bytes → Option ClientConfig) (pem : Pem) (sha256 : Bytes → Bytes) (j : Codecs)
    (jo : Json Open) (ed : Ed25519) {PublicKey PrivateKey : Type 0}
    (pq : Mldsa65 PublicKey PrivateKey) where
  -- The client that runs, and the delays that its Run sleeps. Run returns no error.
  unfoldable pub run_client :
      {Rest : Type 0} → Option Bytes → List (Turn Rest) → Cmd (Client PrivateKey × List ℤ)
  run_client flags turns = do
    path ← lift (or_err flags bad_flags)
    refuse_empty path no_config
    c ← configured_client decode pem sha256 j jo ed pq path
    lift (ok (c, Client.run_client sha256 j jo ed pq c turns))
