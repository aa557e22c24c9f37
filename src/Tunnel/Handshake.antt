-- ===== src/Tunnel/Handshake.antt =====
-- Server.runHandshake of internal/tunnel/server.go and Client.runHandshake of internal/tunnel/client.go.
-- The deadlines of the connections are part of what arrives on them.
pub mod Safety
pub mod Honest
pub mod Completes
pub mod Agreement
pub mod Rejection
use passage.Base.{Bytes, List, [], ◌∷◌, codes, Option, is_empty, or_err, refuse_if, Result, ok, err}
use passage.Base.Int.{ℤ}
use passage.Go.Io.{M, ◌>>=◌, ◌>>◌, pure, wrap}
use passage.Go.Time.{Time}
use passage.Auth.Crypto.{Ed25519, Mldsa65}
use passage.Auth.Verify.{sign, pq_sign}
use passage.Auth.Keys.{pq_algorithm_mldsa}
use passage.Proto.Messages.{ServerHello, ClientAuth, Accepted, AuthFailed}
use passage.Proto.Framing.{Json, ProtoError, write_message, read_message}
use passage.Tunnel.Server.{Tables, Reason, validate_auth}

-- encoding/json at the types of the handshake.
pub record Codecs : Type 0 where
  pub hello : Json ServerHello
  pub client_auth : Json ClientAuth
  pub accepted : Json Accepted
  pub auth_failed : Json AuthFailed

pub data ServerError : Type 0 where
  nonce_failed : ServerError
  proto : ProtoError → ServerError
  rejected : Reason → ServerError

pub data ClientError : Type 0 where
  read_hello write_auth read_accepted : ProtoError → ClientError
  pq_sign_failed missing_session_id : ClientError

-- What a rejected client is told, whatever the reason.
abbrev pub rejection : AuthFailed
rejection = record { reason = codes "authentication failed" }

-- The client id, the session id and the requested services of an accepted client.
abbrev pub Admitted : Type 0
Admitted = Bytes × Bytes × List Bytes

module _ (j : Codecs) (ed : Ed25519) {PublicKey PrivateKey : Type 0}
    (pq : Mldsa65 PublicKey PrivateKey) where
  -- The answer to a verdict of validateAuth. A failure to send the rejection is ignored.
  unfoldable pub answer : Bytes → ClientAuth → Result Reason (Unit {0}) → M ServerError Admitted
  answer sid ca (err r) c = (err (rejected r), (write_message j.auth_failed rejection c).1)
  answer sid ca (ok _) c =
      (do
        wrap proto (write_message j.accepted (record { session_id = sid }))
        pure (ok (ca.client_id, sid, ca.requested_services)))
        c

  -- `nonce` is what auth.NewNonce returned, `sid` what newSessionID returned, `hello_time` and `now` are the
  -- two readings of the clock.
  unfoldable pub server_handshake :
      Tables PublicKey → Bytes → Option Bytes → Bytes → ℤ → Time → M ServerError Admitted
  unfolding answer
  server_handshake s exporter nonce sid hello_time now = do
    nonce ← pure (or_err nonce nonce_failed)
    wrap proto (write_message j.hello (record { nonce = nonce; server_time = hello_time }))
    ca ← wrap proto (read_message j.client_auth)
    answer sid ca (validate_auth ed pq s now nonce exporter ca)

  -- The message that a client with these keys sends.
  unfoldable pub client_auth : Bytes → Bytes → Bytes → Bytes → ℤ → List Bytes → Bytes → ClientAuth
  client_auth priv nonce exporter id now requested pq_sig = record {
    client_id = id;
    client_time = now;
    signature = sign ed priv nonce exporter id now;
    requested_services = requested;
    pq_algorithm = pq_algorithm_mldsa;
    pq_signature = pq_sig;
  }

  unfoldable pub client_handshake :
      Bytes → PrivateKey → Bytes → List Bytes → Bytes → ℤ → M ClientError Bytes
  unfolding client_auth
  client_handshake priv pq_priv id requested exporter now = do
    hello ← wrap read_hello (read_message j.hello)
    pq_sig ← pure (or_err (pq_sign pq pq_priv hello.nonce exporter id now requested) pq_sign_failed)
    wrap write_auth (
        write_message j.client_auth (client_auth priv hello.nonce exporter id now requested pq_sig))
    acc ← wrap read_accepted (read_message j.accepted)
    pure (refuse_if (is_empty acc.session_id) missing_session_id)
    pure (ok acc.session_id)
