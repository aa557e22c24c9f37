-- ===== src/Tunnel/Handshake/Safety.antt =====
-- The server admits nobody whose claim is not authentic.
use passage.Tunnel.Handshake.{Codecs, server_handshake, answer, Admitted, proto}
use passage.Auth.Crypto.{Ed25519, Mldsa65}
use passage.Base.{Bytes, Option, Result, ◌≡◌, ok, err, some, arith, refl, none}
use passage.Tunnel.Server.{Tables, Reason, validate_auth}
use passage.Proto.Messages.{ClientAuth}
use passage.Base.Int.{ℤ}
use passage.Go.Time.{Time}
use passage.Go.Io.{Conn, after-eq-ok, on_result, on_result-eq-ok}
use passage.Proto.Framing.{write_message, read_message}
use passage.Tunnel.Server.Authentic.{IsAuthentic, validate_auth_iff}

module _ (j : Codecs) (ed : Ed25519) {PublicKey PrivateKey : Type 0}
    (pq : Mldsa65 PublicKey PrivateKey) where
  answer-ok :
      (sid : Bytes) (ca : ClientAuth) (v : Result Reason (Unit {0})) (c d : Conn) (a : Admitted)
      → answer j ed pq sid ca v c ≡ (ok a, d)
      → (v ≡ ok tt) × (a ≡ (ca.client_id, sid, ca.requested_services))
  unfolding answer
  answer-ok sid ca (err r) c d a h = ground arith
  answer-ok sid ca (ok tt) c d a h =
      let (_, _, _, e) =
        after-eq-ok (λ _ c. (ok (ca.client_id, sid, ca.requested_services), c))
          (on_result proto (write_message j.accepted (record { session_id = sid }) c)) h in
      (refl, ground arith)

  -- If the server's handshake succeeds, it drew a nonce, sent it, and then read a ClientAuth that is authentic for this nonce and
  -- this connection's exporter; the admitted client and services are those of that message.
  pub server_handshake-IsAuthentic :
      (s : Tables PublicKey) (exporter : Bytes) (nonce : Option Bytes) (sid : Bytes)
      (hello_time : ℤ) (now : Time) (c d : Conn) (a : Admitted)
      → server_handshake j ed pq s exporter nonce sid hello_time now c ≡ (ok a, d)
      → (n : Bytes) × (ca : ClientAuth) × (sent read : Conn) × (nonce ≡ some n)
        × (write_message j.hello (record { nonce = n; server_time = hello_time }) c ≡ (ok tt, sent))
        × (read_message j.client_auth sent ≡ (ok ca, read))
        × IsAuthentic ed pq s now n exporter ca
        × (a ≡ (ca.client_id, sid, ca.requested_services))
  unfolding server_handshake
  server_handshake-IsAuthentic s exporter none sid hello_time now c d a h = ground arith
  server_handshake-IsAuthentic s exporter (some n) sid hello_time now c d a h =
      let (tt, sent, w, h) =
        after-eq-ok _
          (on_result proto
            (write_message j.hello (record { nonce = n; server_time = hello_time }) c))
          h in
      let (ca, read, r, h) = after-eq-ok _ (on_result proto (read_message j.client_auth sent)) h in
      let (v, e) = answer-ok sid ca (validate_auth ed pq s now n exporter ca) read d a h in
      (
        n,
        ca,
        sent,
        read,
        refl,
        on_result-eq-ok proto _ w,
        on_result-eq-ok proto _ r,
        (validate_auth_iff ed pq s now n exporter ca).0 v,
        e,
      )
