-- ===== src/Tunnel/Handshake/Agreement.antt =====
-- The two sides put together.
use passage.Tunnel.Handshake.{server_handshake, client_handshake, client_auth, Codecs}
use passage.Tunnel.Handshake.Completes.{Carries, server_completes, client_completes}
use passage.Tunnel.Handshake.Honest.{
  IsKeyPair, IsPqSignature, IsRegistered, validate_auth-client_auth,
}
use passage.Base.{Bytes, List, ℕ, ◌<◌, ◌≢◌, [], ◌≡◌, ok, All, ◌++◌, suc, some, lookup}
use passage.Auth.Crypto.{Ed25519, Mldsa65}
use passage.Base.Int.{ℤ}
use passage.Go.Time.{Time}
use passage.Proto.Messages.{ClientAuth, ServerHello, pq_auth_label}
use passage.Tunnel.Server.{Tables, or_nil}
use passage.Auth.SigningInput.{pq_signing_input}
use passage.Go.Io.{Conn}
use passage.Auth.Skew.{check_clock_skew}
use passage.Proto.Framing.{frame}
use passage.Tunnel.Server.Authentic.{IsListed}
use passage.Auth.Verify.{pq_sign}

-- One attempt of a client to connect: what both sides draw, read off their clocks and are configured with.
pub record Attempt (PrivateKey : Type 0) : Type 0 where
  pub nonce : Bytes
  pub exporter : Bytes
  pub sid : Bytes
  pub hello_time : ℤ
  pub now : Time
  pub priv : Bytes
  pub pq_priv : PrivateKey
  pub id : Bytes
  pub client_time : ℤ
  pub requested : List Bytes
  pub pq_sig : Bytes

-- The three messages of a successful handshake, encoded.
pub record Bodies : Type 0 where
  pub hello : Bytes
  pub auth : Bytes
  pub accepted : Bytes

module _ (j : Codecs) (ed : Ed25519) {PublicKey PrivateKey : Type 0}
    (pq : Mldsa65 PublicKey PrivateKey) where
  abbrev pub hello_of : Attempt PrivateKey → ServerHello
  hello_of a = record { nonce = a.nonce; server_time = a.hello_time }

  abbrev pub auth_of : Attempt PrivateKey → ClientAuth
  auth_of a = client_auth j ed pq a.priv a.nonce a.exporter a.id a.client_time a.requested a.pq_sig

  pub record IsEncoded (a : Attempt PrivateKey) (b : Bodies) : Type 0 where
    pub hello : Carries j.hello (hello_of a) b.hello
    pub auth : Carries j.client_auth (auth_of a) b.auth
    pub accepted : Carries j.accepted (record { session_id = a.sid }) b.accepted

  -- A client with registered keys, a clock within the window, and permitted services.
  pub record IsHonest (s : Tables PublicKey) (a : Attempt PrivateKey) (pk : Bytes)
      (pq_pk : PublicKey) : Type 0 where
    pub key_pair : IsKeyPair ed a.priv pk
    pub pq_signature :
        IsPqSignature pq a.pq_priv pq_pk
          (pq_signing_input a.nonce a.exporter a.id a.client_time a.requested)
          pq_auth_label
          a.pq_sig
    pub pq_size : 0 < pq.signature_size
    pub registered : IsRegistered s a.id pk pq_pk
    pub in_time : check_clock_skew a.now a.client_time ≡ ok tt
    pub requests : a.requested ≢ []
    pub permitted : All (IsListed (or_nil (lookup a.id s.allowed))) a.requested

  -- The handshake completes for a client whose two registered keys make its signatures, whose time CheckClockSkew takes, and that requests at least one
  -- service and only services that it may have, if the session id is not empty and the messages encode and decode: with each side receiving what the other sends, the server admits the client under its id,
  -- with the session id that the client returns and exactly the services that it asked for; the server sends the
  -- two frames that the client reads, the client the one that the server reads, and bytes that follow are left unread.
  pub handshake_agrees :
      (s : Tables PublicKey) (a : Attempt PrivateKey) (pk : Bytes) (pq_pk : PublicKey) (b : Bodies)
      (server client : Conn) (to_server to_client : Bytes) (n m : ℕ)
      → IsHonest s a pk pq_pk
      → IsEncoded a b
      → a.sid ≢ []
      → server.incoming ≡ frame b.auth ++ to_server
      → client.incoming ≡ frame b.hello ++ (frame b.accepted ++ to_client)
      → server.writes_left ≡ suc (suc (suc (suc n)))
      → client.writes_left ≡ suc (suc m)
      → (server_handshake j ed pq s a.exporter (some a.nonce) a.sid a.hello_time a.now server ≡ (
        ok (a.id, a.sid, a.requested),
        record {
          incoming = to_server;
          outgoing = (server.outgoing ++ frame b.hello) ++ frame b.accepted;
          writes_left = n;
        },
      ))
        × (client_handshake j ed pq a.priv a.pq_priv a.id a.requested a.exporter a.client_time
              client
            ≡ (
              ok a.sid,
              record {
                incoming = to_client;
                outgoing = client.outgoing ++ frame b.auth;
                writes_left = m;
              },
            ))
  handshake_agrees s a pk pq_pk b server client to_server to_client n m honest enc given si ci sw
        cw =
      let valid =
        validate_auth-client_auth j ed pq s a.now a.priv pk a.nonce a.exporter a.id a.pq_priv pq_pk
          a.client_time a.requested a.pq_sig honest.key_pair honest.pq_signature honest.pq_size
          honest.registered honest.in_time honest.requests honest.permitted in
      (
        unfold client_auth in
            server_completes j ed pq s a.exporter a.nonce a.sid a.hello_time a.now (auth_of a)
              b.hello b.auth b.accepted to_server server n enc.hello enc.auth enc.accepted valid si
              sw,
        client_completes j ed pq a.priv a.pq_priv a.id a.requested a.exporter a.nonce a.sid a.pq_sig
            a.hello_time a.client_time b.hello b.auth b.accepted to_client client m enc.hello
            enc.auth enc.accepted (unfold pq_sign in honest.pq_signature.signs) given ci cw,
      )
