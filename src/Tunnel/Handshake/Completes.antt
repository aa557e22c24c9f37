-- ===== src/Tunnel/Handshake/Completes.antt =====
-- The two sides of a handshake, each reading what the other sends.
use passage.Tunnel.Handshake.{server_handshake, client_handshake, client_auth, Codecs}
use passage.Proto.Framing.{Json, frame}
use passage.Auth.Crypto.{Ed25519, Mldsa65}
use passage.Base.{Bytes, ◌≡◌, List, some, length, ◌≤◌, ℕ, ok, ◌≢◌, [], ◌++◌, suc, arith, refl}
use passage.Tunnel.Server.{Tables, validate_auth}
use passage.Base.Int.{ℤ}
use passage.Go.Io.{Conn}
use passage.Go.Time.{Time}
use passage.Proto.Messages.{ClientAuth, max_message_size}
use passage.Auth.Verify.{pq_sign}
use passage.Proto.Framing.RoundTrip.{read_message-frame, write_message-frame}

-- The message is encoded as `body`, which is read back as the message and fits in a frame.
pub record Carries {A : Type 0} (j : Json A) (v : A) (body : Bytes) : Type 0 where
  pub encoded : j.marshal v ≡ some body
  pub decoded : j.unmarshal body ≡ some v
  pub fits : length body ≤ max_message_size

module _ (j : Codecs) (ed : Ed25519) {PublicKey PrivateKey : Type 0}
    (pq : Mldsa65 PublicKey PrivateKey) where
  -- The server, when the client's message arrives and validates: it says hello and confirms.
  pub server_completes :
      (s : Tables PublicKey) (exporter nonce sid : Bytes) (hello_time : ℤ) (now : Time)
      (ca : ClientAuth) (hello_body ca_body acc_body rest : Bytes) (c : Conn) (n : ℕ)
      → Carries j.hello (record { nonce = nonce; server_time = hello_time }) hello_body
      → Carries j.client_auth ca ca_body
      → Carries j.accepted (record { session_id = sid }) acc_body
      → validate_auth ed pq s now nonce exporter ca ≡ ok tt
      → c.incoming ≡ frame ca_body ++ rest
      → c.writes_left ≡ suc (suc (suc (suc n)))
      → server_handshake j ed pq s exporter (some nonce) sid hello_time now c ≡ (
        ok (ca.client_id, sid, ca.requested_services),
        record {
          incoming = rest;
          outgoing = (c.outgoing ++ frame hello_body) ++ frame acc_body;
          writes_left = n;
        },
      )
  unfolding server_handshake
  server_completes s exporter nonce sid hello_time now ca hello_body ca_body acc_body rest c n h a k
        v i w =
      let c1 : Conn = record c {
        outgoing = c.outgoing ++ frame hello_body;
        writes_left = suc (suc n);
      } in
      rw
        (write_message-frame j.hello (record { nonce = nonce; server_time = hello_time }) hello_body
          c (suc (suc n)) h.encoded h.fits w)
        (rw (read_message-frame j.client_auth ca ca_body rest c1 a.decoded a.fits i) (
          rw v (
            rw (
              write_message-frame j.accepted (record { session_id = sid }) acc_body
                (record c1 { incoming = rest }) n k.encoded k.fits refl))))

  pub client_completes :
      (priv : Bytes) (sk : PrivateKey) (id : Bytes) (requested : List Bytes)
      (exporter nonce sid sig : Bytes) (hello_time t : ℤ) (hello_body ca_body acc_body rest : Bytes)
      (c : Conn) (n : ℕ)
      → Carries j.hello (record { nonce = nonce; server_time = hello_time }) hello_body
      → Carries j.client_auth (client_auth j ed pq priv nonce exporter id t requested sig) ca_body
      → Carries j.accepted (record { session_id = sid }) acc_body
      → pq_sign pq sk nonce exporter id t requested ≡ some sig
      → sid ≢ []
      → c.incoming ≡ frame hello_body ++ (frame acc_body ++ rest)
      → c.writes_left ≡ suc (suc n)
      → client_handshake j ed pq priv sk id requested exporter t c ≡ (
        ok sid,
        record { incoming = rest; outgoing = c.outgoing ++ frame ca_body; writes_left = n },
      )
  unfolding client_handshake
  client_completes priv sk id requested exporter nonce sid sig hello_time t hello_body ca_body
        acc_body rest c n h a k s given i w =
      let c1 : Conn = record c { incoming = frame acc_body ++ rest } in
      let c2 : Conn = record c1 { outgoing = c.outgoing ++ frame ca_body; writes_left = n } in
      rw
        (read_message-frame j.hello (record { nonce = nonce; server_time = hello_time }) hello_body
          (frame acc_body ++ rest) c h.decoded h.fits i)
        (rw s (
          rw
            (write_message-frame j.client_auth
              (client_auth j ed pq priv nonce exporter id t requested sig) ca_body c1 n a.encoded
              a.fits w)
            (rw
              (read_message-frame j.accepted (record { session_id = sid }) acc_body rest c2
                k.decoded k.fits refl)
              (ground arith))))
