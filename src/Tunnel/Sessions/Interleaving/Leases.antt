-- ===== src/Tunnel/Sessions/Interleaving/Leases.antt =====
-- What the table of sessions promises, and that the interleaved sessions keep it: a client is leased to one session, a
-- session claims once, and only the holder's own end gives a lease back.
use passage.Base.{
  if◌then◌else◌, ℕ, ◌≡◌, Bytes, List, Map, Option, none, some, lookup, arith, refl, Bool, ap, false,
  sym, true, same, lookup-insert, ◌==◌, Option-cases, inl, inr, Bool-cases, lookup-delete,
}
use passage.Config.Types.{ServiceEntry}
use passage.Tunnel.Sessions.Interleaving.{
  Pc, fresh, leaving, listening, System, goto, enter, modify, Step, removed, on_session, cancel,
  close_listeners, close_yam, cancels_old, closes_old, hangs_up_old, removes, closes, enters, skips,
  listens, cannot_listen, waits, hangs_up, wakes, reaps, ends, after_replace,
}
use passage.Tunnel.Sessions.{State, ServerSession, replace_session, remove_session, delete_current}

-- The abstract state: who has the lease of a client, and which sessions have claimed one.
pub record Leases : Type 0 where
  pub owner : Bytes → Option ℕ
  pub has_claimed : ℕ → Bool

-- What the goroutine of the session `r` may do to the leases.
pub data Change (r : ℕ) (l m : Leases) : Type 0 where
  claim :
      (c : Bytes)
      → l.has_claimed r ≡ false
      → ((d : Bytes) → m.owner d ≡ (if same c d then some r else l.owner d))
      → ((q : ℕ) → m.has_claimed q ≡ (if q == r then true else l.has_claimed q))
      → Change r l m
  release :
      (c : Bytes)
      → l.owner c ≡ some r
      → ((d : Bytes) → m.owner d ≡ (if same c d then none else l.owner d))
      → ((q : ℕ) → m.has_claimed q ≡ l.has_claimed q)
      → Change r l m
  stay :
      ((d : Bytes) → m.owner d ≡ l.owner d)
      → ((q : ℕ) → m.has_claimed q ≡ l.has_claimed q)
      → Change r l m

abbrev pub started : Pc → Bool
started fresh = false
started _ = true

-- The leases of a state of the server.
abbrev pub view : System → Leases
view w = record { owner = λ c. lookup c w.state.sessions; has_claimed = λ r. started (w.pc r) }

module _ (allowed : Map (Map ServiceEntry)) where
  -- The session whose goroutine makes the step, or on which its client acts.
  abbrev pub actor : {w v : System} → Step allowed w v → ℕ
  actor (enters w r n c sid req e) = r
  actor (cancels_old w r old req e) = r
  actor (closes_old w r old req e) = r
  actor (hangs_up_old w r old req e) = r
  actor (skips w r name rest e n) = r
  actor (listens w r name rest svc e l f) = r
  actor (cannot_listen w r name rest svc e l) = r
  actor (waits w r e) = r
  actor (hangs_up w r a) = r
  actor (wakes w r e y) = r
  actor (reaps w r b a l d e) = r
  actor (removes w r e) = r
  actor (closes w r e) = r
  actor (ends w r e) = r

  goto-stay :
      (w : System) (r : ℕ) (p : Pc) (st : State)
      → st.sessions ≡ w.state.sessions
      → started p ≡ started (w.pc r)
      → Change r (view w) (view (record { state = st; pc = goto w.pc r p }))
  unfolding goto
  goto-stay w r p st e h = stay (λ d. ap (lookup d) e) (λ q. ground arith)

  modify-stay :
      (w : System) (r : ℕ) (ss : ServerSession) (p : Pc)
      → started p ≡ started (w.pc r)
      → Change r (view w) (view (modify r ss p w))
  unfolding modify
  modify-stay w r ss p h = goto-stay w r p (modify r ss p w).state refl h

  after_replace-started : (o : Option ℕ) (req : List Bytes) → started (after_replace o req) ≡ true
  after_replace-started none req = refl
  after_replace-started (some old) req = refl

  enters-claim :
      (w : System) (r n : ℕ) (c sid : Bytes) (req : List Bytes)
      → w.pc r ≡ fresh
      → Change r (view w) (view (enter r n c sid req w))
  unfolding enter replace_session goto
  enters-claim w r n c sid req e =
      claim c (ap started e) (λ d. lookup-insert c d r w.state.sessions)
        (λ q. ground (arith, after_replace-started (lookup c w.state.sessions) req))

  removes-Change :
      (w : System) (r : ℕ) (c : Bytes)
      → w.pc r ≡ leaving
      → Change r
          (view w)
          (view (record { state = remove_session c r w.state; pc = goto w.pc r removed }))
  unfolding goto remove_session delete_current
  removes-Change w r c e = elim (Option-cases (lookup c w.state.sessions)) [
    | inl gone ↦ stay (λ d. rw gone) (λ q. ground arith)
    | inr (q, cur) ↦ elim (Bool-cases (q == r)) [
      | inl mine ↦
          release c (ground arith)
            (λ d. rw (cur, delete_current) (rw mine (lookup-delete c d w.state.sessions)))
            (λ q. ground arith)
      | inr other ↦ stay (λ d. rw (cur, delete_current) (rw other)) (λ q. ground arith)
    ]
  ]

  on_session-stay :
      (w : System) (r old : ℕ) (call : ServerSession → ServerSession) (p : Pc)
      → started p ≡ started (w.pc r)
      → Change r
          (view w)
          (view (record { state = on_session old call w.state; pc = goto w.pc r p }))
  unfolding on_session
  on_session-stay w r old call p h = goto-stay w r p (on_session old call w.state) refl h

  -- Every step of the interleaved sessions leaves the leases alone, or is a claim by the session that makes the step, which has not
  -- claimed before, or is a release by it of a lease that it holds.
  pub Step-Change : {w v : System} (st : Step allowed w v) → Change (actor st) (view w) (view v)
  Step-Change (enters w r n c sid req e) = enters-claim w r n c sid req e
  Step-Change (cancels_old w r old req e) = on_session-stay w r old cancel _ (ap started (sym e))
  Step-Change (closes_old w r old req e) =
      on_session-stay w r old close_listeners _ (ap started (sym e))
  Step-Change (hangs_up_old w r old req e) =
      on_session-stay w r old close_yam _ (ap started (sym e))
  Step-Change (skips w r name rest e n) = goto-stay w r _ w.state refl (ap started (sym e))
  Step-Change (listens w r name rest svc e l f) =
      modify-stay w r _ (listening rest) (ap started (sym e))
  Step-Change (cannot_listen w r name rest svc e l) =
      goto-stay w r _ w.state refl (ap started (sym e))
  Step-Change (waits w r e) = goto-stay w r _ w.state refl (ap started (sym e))
  Step-Change (hangs_up w r a) = modify-stay w r _ (w.pc r) refl
  Step-Change (wakes w r e y) = goto-stay w r _ w.state refl (ap started (sym e))
  Step-Change (reaps w r b a l d e) = modify-stay w r _ (w.pc r) refl
  Step-Change (removes w r e) = removes-Change w r (w.state.store r).client_id e
  Step-Change (closes w r e) = on_session-stay w r r close_yam _ (ap started (sym e))
  Step-Change (ends w r e) = on_session-stay w r r cancel _ (ap started (sym e))
