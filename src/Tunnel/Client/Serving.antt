-- ===== src/Tunnel/Client/Serving.antt =====
-- When the client serves streams, and over what connection.
use passage.Base.{
  Bytes, List, Option, some, none, true, ok, ◌≡◌, ◌↔◌, arith, >>-eq-ok, >>=-eq-ok, Bool-cases,
  false, inr, or_err, refuse_if, ◌≢◌, inl, not, Result-cases, or_err-eq-ok, Option-cases,
  refuse_if-eq-ok,
}
use passage.Auth.Crypto.{Ed25519, Mldsa65}
use passage.Proto.Messages.{Open, auth_label, exporter_length}
use passage.Mux
use passage.Proto.Framing.{Json}
use passage.Tunnel.Tls.{ConnectionState, x25519_mlkem768, verify_connection}
use passage.Tunnel.Tls.Pinning.{IsPinned, verify_certificates_iff}
use passage.Tunnel.Handshake.{Codecs}
use passage.Tunnel.Client.{
  Client, client_mux_config, Attempt, connect_and_serve, verify_once, tls_handshake, handshake,
  dialled, tls_failed, exporter_failed, dial_failed,
}

module _ (sha256 : Bytes → Bytes) (j : Codecs) (jo : Json Open) (ed : Ed25519)
    {PublicKey PrivateKey : Type 0} (pq : Mldsa65 PublicKey PrivateKey) {Rest : Type 0} where
  -- The connection is to the server whose certificate has the configured digest, under the post-quantum key exchange, and the
  -- handshake of the two sides over it has succeeded.
  pub record IsEstablished (c : Client PrivateKey) (a : Attempt Rest) : Type 0 where
    pub dialled : a.dials ≡ true
    pub shown : ConnectionState
    pub shown_in_tls : a.tls ≡ some shown
    pub pinned : IsPinned sha256 c.want shown.peer_certificates
    pub curve : shown.curve_id ≡ x25519_mlkem768
    pub exporter : Bytes
    pub exported : (a.exporter auth_label none exporter_length) ≡ some exporter
    pub session_id : Bytes
    pub accepted : handshake sha256 j jo ed pq c a exporter ≡ ok session_id

  tls_handshake_iff :
      (c : Client PrivateKey) (a : Attempt Rest) (cs : ConnectionState)
      → a.tls ≡ some cs
      → (tls_handshake sha256 j jo ed pq c a ≡ ok tt)
        ↔ (IsPinned sha256 c.want cs.peer_certificates × (cs.curve_id ≡ x25519_mlkem768))
  unfolding tls_handshake verify_connection
  tls_handshake_iff c a cs e =
      ground (arith, verify_certificates_iff sha256 c.want cs cs.peer_certificates)

  tls_handshake-shown :
      (c : Client PrivateKey) (a : Attempt Rest)
      → tls_handshake sha256 j jo ed pq c a ≡ ok tt
      → (cs : ConnectionState) × (a.tls ≡ some cs)
        × (IsPinned sha256 c.want cs.peer_certificates)
        × (cs.curve_id ≡ x25519_mlkem768)
  unfolding tls_handshake
  tls_handshake-shown c a h =
      let (cs, shown, _) = >>=-eq-ok (or_err a.tls tls_failed) _ h in
      let shown = or_err-eq-ok a.tls tls_failed shown in
      let (pinned, curve) = (tls_handshake_iff c a cs shown).0 h in (cs, shown, pinned, curve)

  -- `passage verify` reports success exactly for an established connection.
  pub verify_once_iff :
      (c : Client PrivateKey) (a : Attempt Rest)
      → (verify_once sha256 j jo ed pq c a ≡ ok tt) ↔ IsEstablished c a
  unfolding verify_once
  verify_once_iff c a = (
    λ h.
        (let (d, h) = >>-eq-ok (refuse_if (not a.dials) dial_failed) _ h in
          let (t, h) = >>-eq-ok (tls_handshake sha256 j jo ed pq c a) _ h in
          let (exporter, x, h) =
            >>=-eq-ok (or_err (a.exporter auth_label none exporter_length) exporter_failed) _ h in
          let (sid, s, _) = >>=-eq-ok (handshake sha256 j jo ed pq c a exporter) _ h in
          let (cs, shown, pinned, curve) = tls_handshake-shown c a t in
          record {
            dialled = ground (arith, refuse_if-eq-ok (not a.dials) dial_failed d);
            shown = cs;
            shown_in_tls = shown;
            pinned = pinned;
            curve = curve;
            exporter = exporter;
            exported = or_err-eq-ok (a.exporter auth_label none exporter_length) exporter_failed x;
            session_id = sid;
            accepted = s;
          }),
    λ i. ground (
      arith,
      i.dialled,
      (tls_handshake_iff c a i.shown i.shown_in_tls).1 (i.pinned, i.curve),
      i.exported,
      i.accepted,
    ),
  )

  serves-IsEstablished :
      (c : Client PrivateKey) (a : Attempt Rest) (ts : List (Option Bytes))
      → (connect_and_serve sha256 j jo ed pq c a).served ≡ some ts
      → IsEstablished c a
        × (Mux.client a.default_config a.yamux_client client_mux_config ≡ some tt)
        × (ts ≡ dialled sha256 j jo ed pq c.cfg.services a.streams)
  unfolding connect_and_serve
  serves-IsEstablished c a ts h = elim (Bool-cases a.dials) [
    | inr no_ ↦ ground arith
    | inl d ↦ elim (Result-cases (tls_handshake sha256 j jo ed pq c a)) [
      | inr (e, t) ↦ ground arith
      | inl (_, t) ↦ elim (Option-cases (a.exporter auth_label none exporter_length)) [
        | inl x ↦ ground arith
        | inr (exporter, x) ↦ elim (Result-cases (handshake sha256 j jo ed pq c a exporter)) [
          | inr (e, s) ↦ ground arith
          | inl (sid, s) ↦
              let (cs, shown, pinned, curve) = tls_handshake-shown c a t in
              (
                record {
                  dialled = d;
                  shown = cs;
                  shown_in_tls = shown;
                  pinned = pinned;
                  curve = curve;
                  exporter = exporter;
                  exported = x;
                  session_id = sid;
                  accepted = s;
                },
                ground arith,
                ground arith,
              )
        ]
      ]
    ]
  ]

  pub connect_and_serve_iff :
      (c : Client PrivateKey) (a : Attempt Rest) (ts : List (Option Bytes))
      → ((connect_and_serve sha256 j jo ed pq c a).served ≡ some ts) ↔ (
          IsEstablished c a
          × (Mux.client a.default_config a.yamux_client client_mux_config ≡ some tt)
          × (ts ≡ dialled sha256 j jo ed pq c.cfg.services a.streams))
  unfolding connect_and_serve
  connect_and_serve_iff c a ts = (
    serves-IsEstablished c a ts,
    λ (i, y, e). ground (
      arith,
      i.dialled,
      (tls_handshake_iff c a i.shown i.shown_in_tls).1 (i.pinned, i.curve),
      i.exported,
      i.accepted,
    ),
  )

  -- However connectAndServe returns, it leaves no connection open; and it returns without an error only after the context
  -- is done.
  pub connect_and_serve-closes :
      (c : Client PrivateKey) (a : Attempt Rest)
      → ((connect_and_serve sha256 j jo ed pq c a).conn_open ≡ false)
        × (((connect_and_serve sha256 j jo ed pq c a).result ≡ ok tt)
            ↔ ((a.stopped ≡ true) × ((connect_and_serve sha256 j jo ed pq c a).served ≢ none)))
  unfolding connect_and_serve
  connect_and_serve-closes c a = ground arith
