-- ===== src/Tunnel/Control/Authorized.antt =====
-- Who can get a session of the server.
use passage.Base.Int.{pos_part}
use passage.Tunnel.Control.{
  Incoming, admit, handle_control, after_admit, at_return, run_session, Shared, new_nonce,
  new_session_id, mux_config,
}
use passage.Tunnel.Sessions.{Listener, open_session}
use passage.Tunnel.Sessions.Others.{
  lookup-open_session, store-open_session, IsKeyed, open_session-IsKeyed,
}
use passage.Tunnel.Admission.{
  Outcome, session_ran, not_tls, tls_failed, exporter_failed, handshake_failed, mux_failed,
}
use passage.Base.{
  refl, Bytes, ◌≡◌, ok, true, ℕ, >>-eq-ok, lookup, some, refuse_if, not, >>=-eq-ok, or_err,
  wrap_err, ap, wrap_err-eq-ok, arith, refuse_if-eq-ok, or_err-eq-ok, List, Result, Bool, err, ◌≢◌,
  ◌⊎◌, inl, Bool-cases, inr, Result-cases, same, same_iff, sym, ◌∙◌, none,
}
use passage.Mux.{Yamux}
use passage.Config.Types.{LimitsConfig}
use passage.Auth.Crypto.{Ed25519, Mldsa65}
use passage.Tunnel.Server.{Tables, or_nil}
use passage.Tunnel.Tls.{Settings, ConnectionState}
use passage.Tunnel.Handshake.{Codecs, Admitted, server_handshake}
use passage.Go.Io.{Conn}
use passage.Proto.Messages.{ClientAuth, auth_label, exporter_length}
use passage.Proto.Framing.{write_message, read_message}
use passage.Tunnel.Server.Authentic.{IsAuthentic}
use passage.Tunnel.Handshake.Safety.{server_handshake-IsAuthentic}
use passage.Tunnel.Admission
use passage.Mux

abbrev pub outcome_of : {A : Type 0} → Result Outcome A → Outcome
outcome_of (err o) = o
outcome_of (ok a) = session_ran

module _ (j : Codecs) (ed : Ed25519) {PublicKey PrivateKey : Type 0}
    (pq : Mldsa65 PublicKey PrivateKey) {Rest : Type 0} (default_config : Yamux Rest) where
  -- What a connection on which a client is admitted has been through: TLS, with the callback of the server's settings; a ClientAuth that is
  -- authentic for the nonce that was drawn for the connection and for its exporter; and yamux.
  pub record IsAdmitted (settings : Settings) (limits : LimitsConfig) (s : Tables PublicKey)
      (r : Incoming Rest) (who : Admitted) : Type 0 where
    pub over_tls : r.is_tls ≡ true
    pub shown : ConnectionState
    pub shown_in_tls : r.tls ≡ some shown
    pub accepted : settings.verify shown ≡ ok tt
    pub exporter : Bytes
    pub exported : (r.exporter auth_label none exporter_length) ≡ some exporter
    pub nonce : Bytes
    pub drawn : r.nonce_bytes 32 ≡ some nonce
    pub auth : ClientAuth
    pub sent : Conn
    pub received : Conn
    pub greeted :
        write_message j.hello (record { nonce = nonce; server_time = r.hello_time }) r.conn
        ≡ (ok tt, sent)
    pub claimed : read_message j.client_auth sent ≡ (ok auth, received)
    pub authentic : IsAuthentic ed pq s r.now nonce exporter auth
    pub identified : who ≡ (auth.client_id, new_session_id r.sid_bytes, auth.requested_services)
    pub multiplexed : Mux.server default_config r.yamux_server (mux_config limits) ≡ some tt

  -- Only such a connection gets as far as a session.
  pub admit-IsAdmitted :
      (settings : Settings) (limits : LimitsConfig) (s : Tables PublicKey) (r : Incoming Rest)
      (who : Admitted)
      → admit j ed pq default_config settings limits s r ≡ ok who
      → IsAdmitted settings limits s r who
  unfolding admit new_nonce
  admit-IsAdmitted settings limits s r who h =
      let (t, h) = >>-eq-ok (refuse_if (not r.is_tls) not_tls) _ h in
      let (cs, shown, h) = >>=-eq-ok (or_err r.tls tls_failed) _ h in
      let (v, h) = >>-eq-ok (wrap_err (λ _. tls_failed) (settings.verify cs)) _ h in
      let (exporter, x, h) =
        >>=-eq-ok (or_err (r.exporter auth_label none exporter_length) exporter_failed) _ h in
      let run =
        server_handshake j ed pq s exporter (r.nonce_bytes 32) (new_session_id r.sid_bytes)
          r.hello_time r.now r.conn in
      let (a, w, h) = >>=-eq-ok (wrap_err (λ _. handshake_failed) run.0) _ h in
      let (_, y, h) =
        >>=-eq-ok (or_err (Mux.server default_config r.yamux_server (mux_config limits)) mux_failed)
          _ h in
      let (n, ca, sent, received, drawn, hello, claim, authentic, who_) =
        server_handshake-IsAuthentic j ed pq s exporter (r.nonce_bytes 32)
          (new_session_id r.sid_bytes) r.hello_time r.now r.conn run.1 a
          (ap (λ v. (v, run.1)) (wrap_err-eq-ok (λ _. handshake_failed) run.0 w)) in
      record {
        over_tls = ground (arith, refuse_if-eq-ok (not r.is_tls) not_tls t);
        shown = cs;
        shown_in_tls = or_err-eq-ok r.tls tls_failed shown;
        accepted = wrap_err-eq-ok (λ _. tls_failed) (settings.verify cs) v;
        exporter = exporter;
        exported = or_err-eq-ok (r.exporter auth_label none exporter_length) exporter_failed x;
        nonce = n;
        drawn = drawn;
        auth = ca;
        sent = sent;
        received = received;
        greeted = hello;
        claimed = claim;
        authentic = authentic;
        identified = cc;
        multiplexed =
            or_err-eq-ok (Mux.server default_config r.yamux_server (mux_config limits)) mux_failed
              y;
      }

  -- The cases of a connection: nobody was admitted and the sessions are as they were, or somebody was and has a session.
  pub handle_control-cases :
      (free : List Listener → Bytes → Bool) (settings : Settings) (limits : LimitsConfig)
      (s : Tables PublicKey) (ns : ℕ) (r : Incoming Rest) (t : Shared)
      → ((handle_control j ed pq default_config free settings limits s ns r t).sessions
          ≡ t.sessions)
        ⊎ ((who : Admitted) × IsAdmitted settings limits s r who
            × ((handle_control j ed pq default_config free settings limits s ns r t).sessions
                ≡ (open_session free
                    (pos_part limits.max_streams_per_client)
                    who.0
                    who.1
                    ns
                    (or_nil (lookup who.0 s.allowed))
                    who.2
                    t.sessions).1))
  unfolding handle_control run_session
  handle_control-cases free settings limits s ns r t =
      elim (Result-cases (admit j ed pq default_config settings limits s r)) [
        | inr (o, e) ↦ inl (rw e refl)
        | inl (who, e) ↦ inr (who, admit-IsAdmitted settings limits s r who e, rw e refl)
      ]

  -- A session in the table is left alone, entry and all, by every connection on which not its own client is admitted.
  pub handle_control-IsAdmitted :
      (free : List Listener → Bytes → Bool) (settings : Settings) (limits : LimitsConfig)
      (s : Tables PublicKey) (ns : ℕ) (r : Incoming Rest) (t : Shared) (x : Bytes) (q : ℕ)
      → IsKeyed t.sessions
      → lookup x t.sessions.sessions ≡ some q
      → ns ≢ q
      → ((lookup x
              (handle_control j ed pq default_config free settings limits s ns r
                t).sessions.sessions
            ≡ some q)
          × ((handle_control j ed pq default_config free settings limits s ns r t).sessions.store q
              ≡ t.sessions.store q))
        ⊎ ((who : Admitted) × IsAdmitted settings limits s r who × (who.0 ≡ x))
  unfolding IsKeyed
  handle_control-IsAdmitted free settings limits s ns r t x q keyed h ne =
      elim (handle_control-cases free settings limits s ns r t) [
        | inl e ↦ inl (rw e (h, refl))
        | inr (who, admitted, e) ↦ elim (Bool-cases (same who.0 x)) [
          | inl i ↦ inr (who, admitted, (same_iff who.0 x).0 i)
          | inr i ↦
              (let other : x ≢ who.0 = λ p. ground (arith, same_iff who.0 x) in
                let kept : lookup who.0 t.sessions.sessions ≢ some q =
                  λ p. other (sym (keyed x q h) ∙ keyed who.0 q p) in
                inl (
                  rw e (
                    lookup-open_session free (pos_part limits.max_streams_per_client) who.0 who.1 ns
                          (or_nil (lookup who.0 s.allowed)) who.2 t.sessions x other
                        ∙ h,
                    store-open_session free (pos_part limits.max_streams_per_client) who.0 who.1 ns
                        (or_nil (lookup who.0 s.allowed)) who.2 t.sessions q ne kept,
                  )))
        ]
      ]

  -- The table keeps every session under its own client id, if the number of the new one is fresh.
  pub handle_control-IsKeyed :
      (free : List Listener → Bytes → Bool) (settings : Settings) (limits : LimitsConfig)
      (s : Tables PublicKey) (ns : ℕ) (r : Incoming Rest) (t : Shared)
      → IsKeyed t.sessions
      → ((x : Bytes) → lookup x t.sessions.sessions ≢ some ns)
      → IsKeyed (handle_control j ed pq default_config free settings limits s ns r t).sessions
  unfolding IsKeyed
  handle_control-IsKeyed free settings limits s ns r t keyed fresh =
      elim (handle_control-cases free settings limits s ns r t) [
        | inl e ↦ rw e keyed
        | inr (who, admitted, e) ↦ rw e (
            open_session-IsKeyed free (pos_part limits.max_streams_per_client) who.0 who.1 ns
              (or_nil (lookup who.0 s.allowed)) who.2 t.sessions keyed fresh)
      ]

  -- However handleControl ends, the semaphore and the connection are left as its outcome says.
  pub at_return-handle_control :
      (free : List Listener → Bytes → Bool) (limits : LimitsConfig) (s : Tables PublicKey) (ns : ℕ)
      (v : Result Outcome Admitted) (t : Shared)
      → (at_return j ed pq default_config ns v
          (after_admit j ed pq default_config free limits s ns v t)).control
        ≡ Admission.handle_control (outcome_of v) t.control
  unfolding at_return after_admit Admission.handle_control
  at_return-handle_control free limits s ns (err o) t = refl
  at_return-handle_control free limits s ns (ok (id, sid, requested)) t = refl
