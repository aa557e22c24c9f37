-- ===== src/Tunnel/Sessions/Replacement.antt =====
-- What a new session of a client does to the old one, and what a session leaves behind.
use passage.Tunnel.Sessions.{
  State, Listener, ServerSession, close_all, open_session, close_session, listen_services,
  shutdown_old, shutdown, put, put_ne, put_self,
}
use passage.Base.{
  Bytes, List, ◌≡◌, All, Bool, false, true, ℕ, Map, arith, ◌∷◌, [], lookup, refl, some, ◌≢◌,
  lookup-insert, same_refl, insert, none, ◌↔◌, ◌++◌, Option-cases, inl, inr, Bool-cases, Option,
  ◌∙◌, ap,
}
use passage.Config.Types.{ServiceEntry}
use mathlib.Core.List.{append-nil, append_assoc}

abbrev pub IsClosed : Listener → Type 0
IsClosed l = l.is_open ≡ false

-- Nothing of the session is left: its context is cancelled, its multiplexer and all its listeners are closed.
pub record IsShut (ss : ServerSession) : Type 0 where
  pub cancelled : ss.cancelled ≡ true
  pub yam_closed : ss.yam_closed ≡ true
  pub listeners_closed : All IsClosed ss.listeners

pub close_all-IsClosed : (ls : List Listener) → All IsClosed (close_all ls)
unfolding close_all
close_all-IsClosed [] = tt
close_all-IsClosed (l ∷ ls) = (refl, close_all-IsClosed ls)

-- When a session ends, nothing of it is left, whether all its services could be listened on or not.
pub close_session-IsShut : (c : Bytes) (r : ℕ) (s : State) → IsShut ((close_session c r s).store r)
unfolding close_session
close_session-IsShut c r s =
    rw (put_self, put_self)
      (record {
        cancelled = refl;
        yam_closed = refl;
        listeners_closed = close_all-IsClosed (s.store r).listeners;
      })

pub shutdown-IsShut : (r : ℕ) (s : State) → IsShut ((shutdown r s).store r)
unfolding shutdown
shutdown-IsShut r s = rw put_self (record {
  cancelled = refl;
  yam_closed = refl;
  listeners_closed = close_all-IsClosed (s.store r).listeners;
})

-- A new session of a client shuts the old one down and enters itself in the table, whatever comes of its listeners.
pub open_session-replaces :
    (free : List Listener → Bytes → Bool) (max_streams : ℕ) (c sid : Bytes) (ns old : ℕ)
    (allowed : Map ServiceEntry) (requested : List Bytes) (s : State)
    → lookup c s.sessions ≡ some old
    → ns ≢ old
    → IsShut ((open_session free max_streams c sid ns allowed requested s).1.store old)
      × (lookup c (open_session free max_streams c sid ns allowed requested s).1.sessions ≡ some ns)
unfolding open_session
open_session-replaces free max_streams c sid ns old allowed requested s h ne =
    let fresh : ServerSession = record {
      id = sid;
      client_id = c;
      cancelled = false;
      yam_closed = false;
      listeners = [];
      stream_sem = record { capacity = max_streams; sent = 0 };
    } in
    let entered : State = record {
      sessions = insert c ns s.sessions;
      store = put s.store ns fresh;
    } in
    rw (h, shutdown_old)
      (rw (put_ne, ne) (shutdown-IsShut old entered), rw (lookup-insert, same_refl))

abbrev and_service : Option ServiceEntry → List ServiceEntry → List ServiceEntry
and_service none rest = rest
and_service (some svc) rest = svc ∷ rest

-- The services that a session listens for: the requested ones that are allowed, in the order of the request.
unfoldable pub wanted : Map ServiceEntry → List Bytes → List ServiceEntry
wanted allowed [] = []
wanted allowed (name ∷ rest) = and_service (lookup name allowed) (wanted allowed rest)

abbrev pub opened : List ServiceEntry → List Listener
opened [] = []
opened (svc ∷ rest) = record { address = svc.listen; is_open = true } ∷ opened rest

-- net.Listen succeeds for each address in turn.
abbrev pub Listenable : (List Listener → Bytes → Bool) → List Listener → List ServiceEntry → Type 0
Listenable free ls [] = Unit
Listenable free ls (svc ∷ rest) =
    (free ls svc.listen ≡ true)
    × Listenable free (ls ++ (record { address = svc.listen; is_open = true } ∷ [])) rest

-- Both facts about the loop, for the induction.
listen_services_both :
    (free : List Listener → Bytes → Bool) (allowed : Map ServiceEntry) (names : List Bytes)
    (sess : ServerSession)
    → (((listen_services free allowed names sess).0 ≡ true)
        ↔ Listenable free sess.listeners (wanted allowed names))
      × ((listen_services free allowed names sess).0 ≡ true
          → (listen_services free allowed names sess).1
            ≡ record sess { listeners = sess.listeners ++ opened (wanted allowed names) })
unfolding listen_services wanted
listen_services_both free allowed [] sess =
    (ground arith, λ h. ground (arith, append-nil sess.listeners))
listen_services_both free allowed (name ∷ names) sess = elim (Option-cases (lookup name allowed)) [
  | inl e ↦ rw e (listen_services_both free allowed names sess)
  | inr (svc, e) ↦
      let l : Listener = record { address = svc.listen; is_open = true } in
      let ih =
        listen_services_both free allowed names
          (record sess { listeners = sess.listeners ++ (l ∷ []) }) in
      rw e (elim (Bool-cases (free sess.listeners svc.listen)) [
        | inl f ↦ rw f (
          (λ h. (refl, ih.0.0 h), λ h. ih.0.1 h.1),
          λ h.
              ih.1 h
              ∙ ap (λ ls. record sess { listeners = ls })
                  (append_assoc sess.listeners (l ∷ []) (opened (wanted allowed names))),
        )
        | inr f ↦ rw f ((λ h. cc, λ h. cc), λ h. cc)
      ])
]

-- The loop gets to its end exactly if net.Listen succeeds for every wanted address in turn.
pub listen_services_iff :
    (free : List Listener → Bytes → Bool) (allowed : Map ServiceEntry) (names : List Bytes)
    (sess : ServerSession)
    → ((listen_services free allowed names sess).0 ≡ true)
      ↔ Listenable free sess.listeners (wanted allowed names)
listen_services_iff free allowed names sess = (listen_services_both free allowed names sess).0

-- When the loop has got to its end, the session listens on what it listened on before and then on the wanted addresses, in the
-- order of the request; nothing else of it has changed.
pub listen_services-done :
    (free : List Listener → Bytes → Bool) (allowed : Map ServiceEntry) (names : List Bytes)
    (sess : ServerSession)
    → (listen_services free allowed names sess).0 ≡ true
    → (listen_services free allowed names sess).1
      ≡ record sess { listeners = sess.listeners ++ opened (wanted allowed names) }
listen_services-done free allowed names sess h = (listen_services_both free allowed names sess).1 h

-- A new session whose services can all be listened on is open, and listens on just the wanted addresses.
pub store-open_session_self :
    (free : List Listener → Bytes → Bool) (max_streams : ℕ) (c sid : Bytes) (ns : ℕ)
    (allowed : Map ServiceEntry) (requested : List Bytes) (s : State)
    → lookup c s.sessions ≢ some ns
    → Listenable free [] (wanted allowed requested)
    → (open_session free max_streams c sid ns allowed requested s).1.store ns ≡ record {
      id = sid;
      client_id = c;
      cancelled = false;
      yam_closed = false;
      listeners = opened (wanted allowed requested);
      stream_sem = record { capacity = max_streams; sent = 0 };
    }
unfolding open_session
store-open_session_self free max_streams c sid ns allowed requested s other h =
    let fresh : ServerSession = record {
      id = sid;
      client_id = c;
      cancelled = false;
      yam_closed = false;
      listeners = [];
      stream_sem = record { capacity = max_streams; sent = 0 };
    } in
    let done =
      listen_services-done free allowed requested fresh
        ((listen_services_iff free allowed requested fresh).1 h) in
    elim (Option-cases (lookup c s.sessions)) [
      | inl e ↦ rw (e, shutdown_old) (rw put_self (rw put_self done))
      | inr (old, e) ↦
          (let apart : old ≢ ns = λ p. other (e ∙ ap some p) in
            rw (e, shutdown_old, shutdown) (rw put_self (rw (put_ne, apart) (rw put_self done))))
    ]
