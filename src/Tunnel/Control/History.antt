-- ===== src/Tunnel/Control/History.antt =====
-- The table of sessions over all connections of a server.
use passage.Base.Int.{pos_part}
use passage.Base.{
  ◌∷◌, [], Bytes, ℕ, lookup, ◌≡◌, List, some, Bool, none, ◌⊎◌, Any, inl, ap, sym, ◌∙◌, inr,
  Bool-cases, same, Option-cases, same_iff, arith, lookup-delete, ◌≢◌,
}
use passage.Tunnel.Control.{Incoming, Shared, handle_control}
use passage.Tunnel.Control.Authorized.{IsAdmitted, handle_control-cases}
use passage.Tunnel.Sessions.{
  State, Listener, close_session, open_session, delete_current, remove_session,
}
use passage.Tunnel.Sessions.Others.{lookup-open_session, lookup-open_session_self}
use passage.Tunnel.Handshake.{Codecs, Admitted}
use passage.Auth.Crypto.{Ed25519, Mldsa65}
use passage.Mux.{Yamux}
use passage.Tunnel.Tls.{Settings}
use passage.Config.Types.{LimitsConfig}
use passage.Tunnel.Server.{Tables, or_nil}

-- A connection, with the number of the session that it may get, and the end of a session.
pub data Event (Rest : Type 0) : Type 0 where
  connects : ℕ → Incoming Rest → Event Rest
  ends : Bytes → ℕ → Event Rest

-- Nothing but an entry of the table is removed when a session ends.
lookup-close_session :
    (x c : Bytes) (r n : ℕ) (st : State)
    → lookup x (close_session c r st).sessions ≡ some n
    → lookup x st.sessions ≡ some n
unfolding close_session remove_session delete_current
lookup-close_session x c r n st h = elim (Option-cases (lookup c st.sessions)) [
  | inl e ↦ ground arith
  | inr (cur, e) ↦ ground (arith, lookup-delete c x st.sessions)
]

module _ (j : Codecs) (ed : Ed25519) {PublicKey PrivateKey : Type 0}
    (pq : Mldsa65 PublicKey PrivateKey) {Rest : Type 0} (default_config : Yamux Rest)
    (free : List Listener → Bytes → Bool) (settings : Settings) (limits : LimitsConfig)
    (s : Tables PublicKey) where
  unfoldable pub step : Event Rest → Shared → Shared
  step (connects ns r) t = handle_control j ed pq default_config free settings limits s ns r t
  step (ends c ns) t = record t { sessions = close_session c ns t.sessions }

  unfoldable pub history : List (Event Rest) → Shared → Shared
  unfolding step
  history [] t = t
  history (e ∷ rest) t = history rest (step e t)

  -- The event is a connection on which this client was admitted, and its session has this number.
  abbrev pub Opens : Bytes → ℕ → Event Rest → Type 0
  Opens x n (connects ns r) =
      (ns ≡ n)
      × ((who : Admitted) × IsAdmitted j ed pq default_config settings limits s r who × (who.0 ≡ x))
  Opens x n (ends c ns) = ⊥

  step-Opens :
      (x : Bytes) (n : ℕ) (e : Event Rest) (t : Shared)
      → lookup x (step e t).sessions.sessions ≡ some n
      → (lookup x t.sessions.sessions ≡ some n) ⊎ Opens x n e
  unfolding step
  step-Opens x n (ends c ns) t h = inl (lookup-close_session x c ns n t.sessions h)
  step-Opens x n (connects ns r) t h =
      elim (handle_control-cases j ed pq default_config free settings limits s ns r t) [
        | inl e ↦ inl (ap (λ (u : State). lookup x u.sessions) (sym e) ∙ h)
        | inr (who, admitted, e) ↦
            let same_table = ap (λ (u : State). lookup x u.sessions) (sym e) ∙ h in
            elim (Bool-cases (same who.0 x)) [
              | inl i ↦
                  (let name = (same_iff who.0 x).0 i in
                    let number : some ns ≡ some n =
                      sym (
                        lookup-open_session_self free (pos_part limits.max_streams_per_client) who.0
                          who.1 ns (or_nil (lookup who.0 s.allowed)) who.2 t.sessions)
                      ∙ ap
                          (λ k.
                            lookup k
                              (open_session free (pos_part limits.max_streams_per_client) who.0
                                who.1 ns (or_nil (lookup who.0 s.allowed)) who.2
                                t.sessions).1.sessions)
                          name
                      ∙ same_table in
                    inr (cc, (who, admitted, name)))
              | inr i ↦
                  (let other : x ≢ who.0 = λ p. ground (arith, same_iff who.0 x) in
                    inl (
                      sym (
                        lookup-open_session free (pos_part limits.max_streams_per_client) who.0
                          who.1 ns (or_nil (lookup who.0 s.allowed)) who.2 t.sessions x other)
                      ∙ same_table))
            ]
      ]

  history_step :
      (x : Bytes) (n : ℕ) (events : List (Event Rest)) (t : Shared)
      → lookup x (history events t).sessions.sessions ≡ some n
      → (lookup x t.sessions.sessions ≡ some n) ⊎ Any (Opens x n) events
  unfolding history
  history_step x n [] t h = inl h
  history_step x n (e ∷ rest) t h = elim (history_step x n rest (step e t) h) [
    | inr later ↦ inr (inr later)
    | inl before ↦ elim (step-Opens x n e t before) [
      | inl kept ↦ inl kept
      | inr opened ↦ inr (inl opened)
    ]
  ]

  -- After any sequence of connections and ends of sessions, a session in the table of a client that had none at the start is the one
  -- of a connection of the sequence on which this client was admitted.
  pub history-Opens :
      (events : List (Event Rest)) (t : Shared) (x : Bytes) (n : ℕ)
      → lookup x t.sessions.sessions ≡ none
      → lookup x (history events t).sessions.sessions ≡ some n
      → Any (Opens x n) events
  history-Opens events t x n empty h = elim (history_step x n events t h) [
    | inl before ↦ absurd (cc)
    | inr opened ↦ opened
  ]
