-- ===== src/Tunnel/Sessions/Others.antt =====
-- What runSession leaves alone when it enters a session.
use passage.Tunnel.Sessions.{
  State, Listener, ServerSession, open_session, shutdown_old, shutdown, listen_services, listen,
  put_ne, put_self,
}
use passage.Base.{
  List, Bytes, Bool, Map, ℕ, lookup, ◌≡◌, ◌≢◌, Option-cases, some, ◌∷◌, inl, arith, inr, Bool-cases,
  lookup-insert, refl, [], same_iff, same_refl, same, sym, ◌∙◌, ap,
}
use passage.Config.Types.{ServiceEntry}

-- Entering a session leaves the entries of other clients.
pub lookup-open_session :
    (free : List Listener → Bytes → Bool) (max_streams : ℕ) (id sid : Bytes) (ns : ℕ)
    (allowed : Map ServiceEntry) (requested : List Bytes) (st : State) (x : Bytes)
    → x ≢ id
    → lookup x (open_session free max_streams id sid ns allowed requested st).1.sessions
      ≡ lookup x st.sessions
unfolding open_session
lookup-open_session free max_streams id sid ns allowed requested st x ne =
    elim (Option-cases (lookup id st.sessions)) [
      | inl e ↦
          rw (e, shutdown_old) (ground (arith, lookup-insert id x ns st.sessions, same_iff id x))
      | inr (old, e) ↦
          rw (e, shutdown_old) (ground (arith, lookup-insert id x ns st.sessions, same_iff id x))
    ]

pub lookup-open_session_self :
    (free : List Listener → Bytes → Bool) (max_streams : ℕ) (id sid : Bytes) (ns : ℕ)
    (allowed : Map ServiceEntry) (requested : List Bytes) (st : State)
    → lookup id (open_session free max_streams id sid ns allowed requested st).1.sessions ≡ some ns
unfolding open_session
lookup-open_session_self free max_streams id sid ns allowed requested st =
    elim (Option-cases (lookup id st.sessions)) [
      | inl e ↦ rw (e, shutdown_old) (rw (lookup-insert, same_refl) refl)
      | inr (old, e) ↦ rw (e, shutdown_old, shutdown) (rw (lookup-insert, same_refl) refl)
    ]

-- Entering a session leaves the sessions of other clients.
pub store-open_session :
    (free : List Listener → Bytes → Bool) (max_streams : ℕ) (id sid : Bytes) (ns : ℕ)
    (allowed : Map ServiceEntry) (requested : List Bytes) (st : State) (q : ℕ)
    → ns ≢ q
    → lookup id st.sessions ≢ some q
    → (open_session free max_streams id sid ns allowed requested st).1.store q ≡ st.store q
unfolding open_session
store-open_session free max_streams id sid ns allowed requested st q ne other =
    elim (Option-cases (lookup id st.sessions)) [
      | inl e ↦ rw (e, shutdown_old) (rw (put_ne, ne) (rw (put_ne, ne) refl))
      | inr (old, e) ↦
          (let apart : old ≢ q = λ h. other (cc) in
            rw (e, shutdown_old, shutdown)
              (rw (put_ne, ne) (rw (put_ne, apart) (rw (put_ne, ne) refl))))
    ]

-- The session that was entered belongs to its client.
listen_services-client_id :
    (free : List Listener → Bytes → Bool) (allowed : Map ServiceEntry) (names : List Bytes)
    (sess : ServerSession)
    → (listen_services free allowed names sess).1.client_id ≡ sess.client_id
unfolding listen_services listen
listen_services-client_id free allowed [] sess = refl
listen_services-client_id free allowed (name ∷ names) sess =
    elim (Option-cases (lookup name allowed)) [
      | inl e ↦ rw e (listen_services-client_id free allowed names sess)
      | inr (svc, e) ↦ elim (Bool-cases (free sess.listeners svc.listen)) [
        | inl f ↦ rw (e, f) (listen_services-client_id free allowed names _)
        | inr f ↦ rw (e, f) refl
      ]
    ]

pub client_id-open_session :
    (free : List Listener → Bytes → Bool) (max_streams : ℕ) (id sid : Bytes) (ns : ℕ)
    (allowed : Map ServiceEntry) (requested : List Bytes) (st : State)
    → lookup id st.sessions ≢ some ns
    → ((open_session free max_streams id sid ns allowed requested st).1.store ns).client_id ≡ id
unfolding open_session
client_id-open_session free max_streams id sid ns allowed requested st other =
    elim (Option-cases (lookup id st.sessions)) [
      | inl e ↦ rw (e, shutdown_old, put_self, listen_services-client_id, put_self) refl
      | inr (old, e) ↦
          (let apart : old ≢ ns = λ h. other (cc) in
            rw (e, shutdown_old, shutdown, put_self, listen_services-client_id)
              (rw (put_ne, apart) (rw put_self refl)))
    ]

-- The table holds every session under its own client id.
unfoldable pub IsKeyed : State → Type 0
IsKeyed st = (x : Bytes) (r : ℕ) → lookup x st.sessions ≡ some r → (st.store r).client_id ≡ x

-- Entering a session at a fresh number keeps that.
pub open_session-IsKeyed :
    (free : List Listener → Bytes → Bool) (max_streams : ℕ) (id sid : Bytes) (ns : ℕ)
    (allowed : Map ServiceEntry) (requested : List Bytes) (st : State)
    → IsKeyed st
    → ((x : Bytes) → lookup x st.sessions ≢ some ns)
    → IsKeyed (open_session free max_streams id sid ns allowed requested st).1
unfolding IsKeyed
open_session-IsKeyed free max_streams id sid ns allowed requested st keyed fresh x r h =
    elim (Bool-cases (same id x)) [
      | inl i ↦
          (let mine : x ≡ id = sym ((same_iff id x).0 i) in
            let self : r ≡ ns = ground (
              arith,
              lookup-open_session_self free max_streams id sid ns allowed requested st,
              mine,
            ) in
            rw self (
              client_id-open_session free max_streams id sid ns allowed requested st (fresh id)
              ∙ sym mine))
      | inr i ↦
          (let other : x ≢ id = λ p. ground (arith, same_iff id x) in
            let before : lookup x st.sessions ≡ some r =
              sym (lookup-open_session free max_streams id sid ns allowed requested st x other)
              ∙ h in
            let old : ns ≢ r = λ p. fresh x (before ∙ ap some (sym p)) in
            let kept : lookup id st.sessions ≢ some r =
              λ p. other (sym (keyed x r before) ∙ keyed id r p) in
            rw (store-open_session free max_streams id sid ns allowed requested st r old kept)
              (keyed x r before))
    ]
