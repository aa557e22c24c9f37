-- ===== src/Tunnel/Handshake/Rejection.antt =====
-- A client that validateAuth does not accept.
use passage.Tunnel.Handshake.{
  server_handshake, client_handshake, client_auth, rejection, Codecs, missing_session_id, rejected,
}
use passage.Tunnel.Handshake.Completes.{Carries}
use passage.Auth.Crypto.{Ed25519, Mldsa65}
use passage.Base.{Bytes, List, ℕ, ◌≡◌, some, [], length, ◌≤◌, err, ◌++◌, suc, refl}
use passage.Tunnel.Server.{Tables, Reason, validate_auth}
use passage.Base.Int.{ℤ}
use passage.Go.Time.{Time}
use passage.Proto.Messages.{ServerHello, ClientAuth, max_message_size}
use passage.Go.Io.{Conn}
use passage.Auth.Verify.{pq_sign}
use passage.Proto.Framing.{frame}
use passage.Proto.Framing.RoundTrip.{read_message-frame, write_message-frame}

module _ (j : Codecs) (ed : Ed25519) {PublicKey PrivateKey : Type 0}
    (pq : Mldsa65 PublicKey PrivateKey) where
  -- Whatever the reason, a rejected client is sent the same bytes: the hello and then AuthFailed with a fixed text; the server
  -- returns the reason as its error.
  pub server_handshake-rejection :
      (s : Tables PublicKey) (exporter nonce sid : Bytes) (hello_time : ℤ) (now : Time)
      (ca : ClientAuth) (r : Reason) (hello_body ca_body fail_body rest : Bytes) (c : Conn) (n : ℕ)
      → Carries j.hello (record { nonce = nonce; server_time = hello_time }) hello_body
      → Carries j.client_auth ca ca_body
      → j.auth_failed.marshal rejection ≡ some fail_body
      → length fail_body ≤ max_message_size
      → validate_auth ed pq s now nonce exporter ca ≡ err r
      → c.incoming ≡ frame ca_body ++ rest
      → c.writes_left ≡ suc (suc (suc (suc n)))
      → server_handshake j ed pq s exporter (some nonce) sid hello_time now c ≡ (
        err (rejected r),
        record {
          incoming = rest;
          outgoing = (c.outgoing ++ frame hello_body) ++ frame fail_body;
          writes_left = n;
        },
      )
  unfolding server_handshake
  server_handshake-rejection s exporter nonce sid hello_time now ca r hello_body ca_body fail_body
        rest c n h a f fits v i w =
      let c1 : Conn = record c {
        outgoing = c.outgoing ++ frame hello_body;
        writes_left = suc (suc n);
      } in
      rw
        (write_message-frame j.hello (record { nonce = nonce; server_time = hello_time }) hello_body
          c (suc (suc n)) h.encoded h.fits w)
        (rw (read_message-frame j.client_auth ca ca_body rest c1 a.decoded a.fits i) (
          rw v (
            rw (
              write_message-frame j.auth_failed rejection fail_body (record c1 { incoming = rest })
                n f fits refl))))

  -- A client that gets this answer, which encoding/json reads as an Accepted without a session id, gives up with an error.
  pub client_handshake-rejection :
      (priv : Bytes) (sk : PrivateKey) (id : Bytes) (requested : List Bytes) (exporter sig : Bytes)
      (t : ℤ) (hello : ServerHello) (hello_body ca_body fail_body rest : Bytes) (c : Conn) (n : ℕ)
      → Carries j.hello hello hello_body
      → Carries j.client_auth
          (client_auth j ed pq priv hello.nonce exporter id t requested sig)
          ca_body
      → j.accepted.unmarshal fail_body ≡ some (record { session_id = [] })
      → length fail_body ≤ max_message_size
      → pq_sign pq sk hello.nonce exporter id t requested ≡ some sig
      → c.incoming ≡ frame hello_body ++ (frame fail_body ++ rest)
      → c.writes_left ≡ suc (suc n)
      → (client_handshake j ed pq priv sk id requested exporter t c).0 ≡ err missing_session_id
  unfolding client_handshake
  client_handshake-rejection priv sk id requested exporter sig t hello hello_body ca_body fail_body
        rest c n h a f fits s i w =
      let c1 : Conn = record c { incoming = frame fail_body ++ rest } in
      let c2 : Conn = record c1 { outgoing = c.outgoing ++ frame ca_body; writes_left = n } in
      rw
        (read_message-frame j.hello hello hello_body (frame fail_body ++ rest) c h.decoded h.fits i)
        (rw s (
          rw
            (write_message-frame j.client_auth
              (client_auth j ed pq priv hello.nonce exporter id t requested sig) ca_body c1 n
              a.encoded a.fits w)
            (rw (
              read_message-frame j.accepted (record { session_id = [] }) fail_body rest c2 f fits
                refl))))
