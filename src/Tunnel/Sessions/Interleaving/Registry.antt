-- ===== src/Tunnel/Sessions/Interleaving/Registry.antt =====
-- Every session that was entered is the client's current one, or cancelled, or about to be shut down by its successor.
use passage.Base.{
  ℕ, ◌≡◌, ◌≢◌, ◌⊎◌, inl, inr, Bytes, List, Map, Option, none, some, lookup, arith, ap, true, sym,
  ◌↔◌, refl, ◌∙◌, ◌∷◌, [], Bool-cases, lookup-insert, same_iff, ◌==◌, lookup-delete, same_refl,
  same, same→eq, false,
}
use passage.Config.Types.{ServiceEntry}
use passage.Tunnel.Sessions.Interleaving.{
  Pc, fresh, waiting, leaving, ended, replacing, listening, System, goto, IsActive, enter, modify,
  Step, removed, hung_up, cancelling, closing, on_session, cancel, close_listeners, close_yam,
  cancels_old, closes_old, hangs_up_old, removes, closes, enters, skips, listens, cannot_listen,
  waits, hangs_up, wakes, reaps, ends, Reach, here, next, after_replace,
}
use passage.Tunnel.Sessions.{put, ServerSession, replace_session, remove_session, delete_current}
use passage.Tunnel.Sessions.Current.{delete_current-keeps}

-- A successor has taken the entry of `r` and has not shut it down yet.
abbrev pub IsReplaced : System → ℕ → Type 0
IsReplaced w r = (q : ℕ) × (req : List Bytes) × (w.pc q ≡ replacing r req)

-- Between replaceSession and the end of the deferred calls.
abbrev pub IsRunning : Pc → Type 0
IsRunning fresh = ⊥
IsRunning ended = ⊥
IsRunning _ = Unit

-- Between removeSession and cancel.
abbrev pub IsRemoved : Pc → Type 0
IsRemoved removed = Unit
IsRemoved hung_up = Unit
IsRemoved _ = ⊥

running-cases : (p : Pc) → IsRunning p → IsActive p ⊎ IsRemoved p
running-cases fresh h = absurd h
running-cases waiting h = inl tt
running-cases leaving h = inl tt
running-cases removed h = inr tt
running-cases hung_up h = inr tt
running-cases ended h = absurd h
running-cases (replacing old req) h = inl tt
running-cases (cancelling old req) h = inl tt
running-cases (closing old req) h = inl tt
running-cases (listening req) h = inl tt

abbrev pub Accounted : System → ℕ → Type 0
Accounted w r =
    ((w.state.store r).cancelled ≡ true)
    ⊎ ((lookup (w.state.store r).client_id w.state.sessions ≡ some r) ⊎ IsReplaced w r)

pub record Inv (w : System) : Type 0 where
  pub current :
      (c : Bytes) (r : ℕ)
      → lookup c w.state.sessions ≡ some r
      → IsActive (w.pc r) × ((w.state.store r).client_id ≡ c)
  pub accounted : (r : ℕ) → IsActive (w.pc r) → Accounted w r

-- A step that leaves the table alone, ends and starts no session, and drops no old session without shutting it down.
record Quiet (w v : System) : Type 0 where
  sessions : v.state.sessions ≡ w.state.sessions
  client : (q : ℕ) → (v.state.store q).client_id ≡ (w.state.store q).client_id
  cancelled : (q : ℕ) → (w.state.store q).cancelled ≡ true → (v.state.store q).cancelled ≡ true
  active : (q : ℕ) → IsActive (v.pc q) ↔ IsActive (w.pc q)
  pending :
      (q old : ℕ) (req : List Bytes)
      → w.pc q ≡ replacing old req
      → (v.pc q ≡ replacing old req) ⊎ ((v.state.store old).cancelled ≡ true)

Quiet-Inv : {w v : System} → Quiet w v → Inv w → Inv v
Quiet-Inv {w} {v} k i = record {
  current = λ c r h.
      (let (a, e) = i.current c r (ap (lookup c) (sym k.sessions) ∙ h) in
        ((k.active r).1 a, k.client r ∙ e));
  accounted = λ r a. elim (i.accounted r ((k.active r).0 a)) [
    | inl dead ↦ inl (k.cancelled r dead)
    | inr (inl cur) ↦ inr (inl (rw (k.client r, k.sessions) cur))
    | inr (inr (q, req, p)) ↦ elim (k.pending q r req p) [
      | inl still ↦ inr (inr (q, req, still))
      | inr dead ↦ inl dead
    ]
  ];
}

module _ (allowed : Map (Map ServiceEntry)) where
  -- A call on the session `old` by `r`, after which `old` is not to be shut down or is cancelled.
  on_session-Quiet :
      (w : System) (r old : ℕ) (call : ServerSession → ServerSession) (p : Pc)
      → ((ss : ServerSession) → (call ss).client_id ≡ ss.client_id)
      → ((ss : ServerSession) → ss.cancelled ≡ true → (call ss).cancelled ≡ true)
      → IsActive p ↔ IsActive (w.pc r)
      → ((o : ℕ) (req : List Bytes)
          → w.pc r ≡ replacing o req
          → (o ≡ old) × ((call (w.state.store old)).cancelled ≡ true))
      → Quiet w (record { state = on_session old call w.state; pc = goto w.pc r p })
  unfolding goto on_session put
  on_session-Quiet w r old call p same mono act shut = record {
    sessions = refl;
    client = λ q. ground (arith, same (w.state.store old));
    cancelled = λ q h. ground (arith, mono (w.state.store old));
    active = λ q. ground arith;
    pending = λ q o req h. elim (Bool-cases (q == r)) [
      | inl self ↦ inr (ground (arith, shut o req))
      | inr other ↦ inl (ground arith)
    ];
  }

  -- Only the program counter of `r` moves, from one active place to another.
  goto-Quiet :
      (w : System) (r : ℕ) (p p' : Pc)
      → w.pc r ≡ p
      → IsActive p
      → IsActive p'
      → ((old : ℕ) (req : List Bytes) → p ≢ replacing old req)
      → Quiet w (record w { pc = goto w.pc r p' })
  unfolding goto
  goto-Quiet w r p p' e a a' ne = record {
    sessions = refl;
    client = λ q. refl;
    cancelled = λ q h. h;
    active = λ q. ground arith;
    pending = λ q o req' h. ground (arith, ne o req');
  }

  modify-Quiet :
      (w : System) (r : ℕ) (ss : ServerSession) (p' : Pc)
      → ss.client_id ≡ (w.state.store r).client_id
      → ((w.state.store r).cancelled ≡ true → ss.cancelled ≡ true)
      → IsActive p' ↔ IsActive (w.pc r)
      → ((old : ℕ) (req : List Bytes) → w.pc r ≡ replacing old req → p' ≡ replacing old req)
      → Quiet w (modify r ss p' w)
  unfolding modify goto put
  modify-Quiet w r ss p' same mono act keep = record {
    sessions = refl;
    client = λ q. ground arith;
    cancelled = λ q h. ground arith;
    active = λ q. ground arith;
    pending = λ q o req' h. ground (arith, keep o req');
  }

  after_replace-IsActive : (o : Option ℕ) (req : List Bytes) → IsActive (after_replace o req)
  after_replace-IsActive none req = tt
  after_replace-IsActive (some old) req = tt

  enter-current :
      (w : System) (r n : ℕ) (c sid : Bytes) (req : List Bytes)
      → w.pc r ≡ fresh
      → Inv w
      → (d : Bytes) (q : ℕ) → lookup d (enter r n c sid req w).state.sessions ≡ some q
      → IsActive ((enter r n c sid req w).pc q)
        × (((enter r n c sid req w).state.store q).client_id ≡ d)
  unfolding enter goto put replace_session
  enter-current w r n c sid req e i d q h = ground (
    arith,
    lookup-insert c d r w.state.sessions,
    same_iff c d,
    i.current d q,
    after_replace-IsActive (lookup c w.state.sessions) req,
  )

  enter-Accounted :
      (w : System) (r n : ℕ) (c sid : Bytes) (req : List Bytes)
      → w.pc r ≡ fresh
      → Inv w
      → (q : ℕ) → IsActive ((enter r n c sid req w).pc q)
      → Accounted (enter r n c sid req w) q
  unfolding enter goto put replace_session
  enter-Accounted w r n c sid req e i q a = elim (Bool-cases (q == r)) [
    | inl self ↦ inr (inl (ground (arith, lookup-insert c c r w.state.sessions, same_refl c)))
    | inr other ↦
        let a : IsActive (w.pc q) = ground arith in
        elim (i.accounted q a) [
          | inl dead ↦ inl (ground arith)
          | inr (inl cur) ↦ elim (Bool-cases (same c (w.state.store q).client_id)) [
            | inl mine ↦
                let mine = same→eq c (w.state.store q).client_id mine in
                inr (inr (r, req, ground (arith, ap (λ d. lookup d w.state.sessions) mine)))
            | inr not_mine ↦ inr (
                inl
                  (ground (arith, lookup-insert c (w.state.store q).client_id r w.state.sessions)))
          ]
          | inr (inr (p, req', pend)) ↦ inr (inr (p, req', ground arith))
        ]
  ]

  enter-Inv :
      (w : System) (r n : ℕ) (c sid : Bytes) (req : List Bytes)
      → w.pc r ≡ fresh
      → Inv w
      → Inv (enter r n c sid req w)
  enter-Inv w r n c sid req e i = record {
    current = enter-current w r n c sid req e i;
    accounted = enter-Accounted w r n c sid req e i;
  }

  lookup-delete_current :
      (c d : Bytes) (q r : ℕ) (m : Map ℕ) (cur : Option ℕ)
      → lookup d m ≡ cur
      → lookup c (delete_current d q m cur) ≡ some r
      → (lookup c m ≡ some r) × (c ≡ d → r ≢ q)
  unfolding delete_current
  lookup-delete_current c d q r m none e h = (h, λ f x. cc (ap (λ k. lookup k m) f))
  lookup-delete_current c d q r m (some x) e h =
      ground (arith, lookup-delete d c m, same_iff d c, λ (f : c ≡ d). ap (λ k. lookup k m) f)

  module _ (w : System) (r : ℕ) (e : w.pc r ≡ leaving) (i : Inv w) where
    abbrev closed : System
    closed = record {
      state = remove_session (w.state.store r).client_id r w.state;
      pc = goto w.pc r removed;
    }

    removes-current :
        (d : Bytes) (q : ℕ)
        → lookup d closed.state.sessions ≡ some q
        → IsActive (closed.pc q) × ((closed.state.store q).client_id ≡ d)
    unfolding goto put remove_session
    removes-current d q h =
        let (was, other) =
          lookup-delete_current d (w.state.store r).client_id r q w.state.sessions _ refl h in
        let (a, c) = i.current d q was in
        let ne : q ≢ r = λ same. other (sym c ∙ ap (λ k. (w.state.store k).client_id) same) same in
        (ground arith, ground arith)

    removes-Accounted : (q : ℕ) → IsActive (closed.pc q) → Accounted closed q
    unfolding goto put remove_session
    removes-Accounted q a =
        let ne : q ≢ r = ground arith in
        let a : IsActive (w.pc q) = ground arith in
        elim (i.accounted q a) [
          | inl dead ↦ inl (ground arith)
          | inr (inl cur) ↦ inr (
              inl (
                let kept =
                  delete_current-keeps (w.state.store q).client_id q (w.state.store r).client_id r
                    w.state.sessions _ refl cur (λ _ h. ne (sym h)) in
                ground arith))
          | inr (inr (p, req, pend)) ↦ inr (inr (p, req, ground arith))
        ]

    removes-Inv : Inv closed
    removes-Inv = record { current = removes-current; accounted = removes-Accounted }

  pub Step-Inv : {w v : System} → Step allowed w v → Inv w → Inv v
  Step-Inv (enters w r n c sid req e) i = enter-Inv w r n c sid req e i
  Step-Inv (cancels_old w r old req e) i =
      Quiet-Inv
        (on_session-Quiet w r old cancel (cancelling old req) (λ ss. refl) (λ ss h. refl)
          (ground arith) (λ o req' h. (ground arith, refl)))
        i
  Step-Inv (closes_old w r old req e) i =
      Quiet-Inv
        (on_session-Quiet w r old close_listeners (closing old req) (λ ss. refl) (λ ss h. h)
          (ground arith) (λ o req' h. absurd (cc)))
        i
  Step-Inv (hangs_up_old w r old req e) i =
      Quiet-Inv
        (on_session-Quiet w r old close_yam (listening req) (λ ss. refl) (λ ss h. h) (ground arith)
          (λ o req' h. absurd (cc)))
        i
  Step-Inv (skips w r name rest e n) i =
      Quiet-Inv (goto-Quiet w r (listening (name ∷ rest)) (listening rest) e tt tt (λ o q. cc)) i
  Step-Inv (listens w r name rest svc e l f) i =
      Quiet-Inv (modify-Quiet w r _ (listening rest) refl (λ h. h) (ground arith) (λ o q h. cc)) i
  Step-Inv (cannot_listen w r name rest svc e l) i =
      Quiet-Inv (goto-Quiet w r (listening (name ∷ rest)) leaving e tt tt (λ o q. cc)) i
  Step-Inv (waits w r e) i = Quiet-Inv (goto-Quiet w r (listening []) waiting e tt tt (λ o q. cc)) i
  Step-Inv (hangs_up w r a) i =
      Quiet-Inv (modify-Quiet w r _ (w.pc r) refl (λ h. h) (λ h. h, λ h. h) (λ o q h. h)) i
  Step-Inv (wakes w r e y) i = Quiet-Inv (goto-Quiet w r waiting leaving e tt tt (λ o q. cc)) i
  Step-Inv (reaps w r b a l d e) i =
      Quiet-Inv (modify-Quiet w r _ (w.pc r) refl (λ h. h) (λ h. h, λ h. h) (λ o q h. h)) i
  Step-Inv (removes w r e) i = removes-Inv w r e i
  Step-Inv (closes w r e) i =
      Quiet-Inv
        (on_session-Quiet w r r close_yam hung_up (λ ss. refl) (λ ss h. h) (ground arith)
          (λ o req' h. absurd (cc)))
        i
  Step-Inv (ends w r e) i =
      Quiet-Inv
        (on_session-Quiet w r r cancel ended (λ ss. refl) (λ ss h. refl) (ground arith)
          (λ o req' h. absurd (cc)))
        i

  pub Reach-Inv : {w : System} → Reach allowed w → Inv w
  unfolding lookup
  Reach-Inv here = record { current = λ c r h. cc; accounted = λ r h. absurd h }
  Reach-Inv (next r st) = Step-Inv st (Reach-Inv r)

  -- Whatever the interleaving, a session that the table names for a client is a session of this client that is before removeSession.
  pub Reach-current :
      {w : System} (c : Bytes) (r : ℕ)
      → Reach allowed w
      → lookup c w.state.sessions ≡ some r
      → IsActive (w.pc r) × ((w.state.store r).client_id ≡ c)
  Reach-current c r reach h = (Reach-Inv reach).current c r h

  -- Whatever the interleaving, of two sessions of one client that have been entered, have not ended and are not cancelled,
  -- one is about to be shut down by the goroutine of a successor, which is between replaceSession and old.shutdown(), or has been
  -- removed by its own goroutine, which is before yam.Close or before cancel.
  pub one_live_session :
      {w : System} (q r : ℕ)
      → Reach allowed w
      → IsRunning (w.pc q)
      → IsRunning (w.pc r)
      → (w.state.store q).cancelled ≡ false
      → (w.state.store r).cancelled ≡ false
      → (w.state.store q).client_id ≡ (w.state.store r).client_id
      → (q ≡ r) ⊎ ((IsReplaced w q ⊎ IsRemoved (w.pc q)) ⊎ (IsReplaced w r ⊎ IsRemoved (w.pc r)))
  one_live_session {w} q r reach sq sr nq nr same_client =
      let i = Reach-Inv reach in
      elim (running-cases (w.pc q) sq) [
        | inr gone ↦ inr (inl (inr gone))
        | inl aq ↦ elim (running-cases (w.pc r) sr) [
          | inr gone ↦ inr (inr (inr gone))
          | inl ar ↦ elim (i.accounted q aq) [
            | inl dead ↦ cc
            | inr (inr p) ↦ inr (inl (inl p))
            | inr (inl cur_q) ↦ elim (i.accounted r ar) [
              | inl dead ↦ cc
              | inr (inr p) ↦ inr (inr (inl p))
              | inr (inl cur_r) ↦
                  inl (ground (arith, ap (λ c. lookup c w.state.sessions) same_client))
            ]
          ]
        ]
      ]
