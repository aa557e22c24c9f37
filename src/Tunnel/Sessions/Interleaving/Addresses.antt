-- ===== src/Tunnel/Sessions/Interleaving/Addresses.antt =====
-- What a session leaves when it has ended.
use passage.Tunnel.Sessions.Replacement.{IsShut, IsClosed, close_all-IsClosed}
use passage.Base.{
  ℕ, ◌≡◌, ◌⊎◌, inl, inr, Bytes, List, Map, Option, none, some, lookup, arith, true, ◌∷◌, [], ◌++◌,
  false, Bool-cases, ◌==◌, subst, sym, All, refl, if◌then◌else◌,
}
use passage.Config.Types.{ServiceEntry}
use passage.Tunnel.Sessions.Interleaving.{
  Pc, fresh, waiting, leaving, removed, hung_up, ended, replacing, cancelling, closing, listening,
  System, goto, IsActive, enter, modify, Step, enters, cancels_old, closes_old, hangs_up_old, skips,
  listens, cannot_listen, waits, hangs_up, wakes, reaps, removes, closes, ends, Reach, here, next,
  after_replace, on_session, cancel, close_listeners, close_yam,
}
use passage.Tunnel.Sessions.{
  Listener, put, put_self, replace_session, ServerSession, remove_session,
}

module _ (allowed : Map (Map ServiceEntry)) where
  -- What a session that is past removeSession has done.
  abbrev IsLeft : Pc → ServerSession → Type 0
  IsLeft removed ss = All IsClosed ss.listeners
  IsLeft hung_up ss = All IsClosed ss.listeners × (ss.yam_closed ≡ true)
  IsLeft ended ss = IsShut ss
  IsLeft _ ss = Unit

  abbrev Tidy : System → Type 0
  Tidy w = (r : ℕ) → IsLeft (w.pc r) (w.state.store r)

  -- What a call does not undo.
  abbrev Keeps : ServerSession → ServerSession → Type 0
  Keeps ss ss' =
      (All IsClosed ss.listeners → All IsClosed ss'.listeners)
      × (ss.yam_closed ≡ true → ss'.yam_closed ≡ true)
      × (ss.cancelled ≡ true → ss'.cancelled ≡ true)

  IsLeft-Keeps : (p : Pc) (ss ss' : ServerSession) → Keeps ss ss' → IsLeft p ss → IsLeft p ss'
  IsLeft-Keeps removed ss ss' (l, y, c) h = l h
  IsLeft-Keeps hung_up ss ss' (l, y, c) (hl, hy) = (l hl, y hy)
  IsLeft-Keeps ended ss ss' (l, y, c) h = record {
    cancelled = c h.cancelled;
    yam_closed = y h.yam_closed;
    listeners_closed = l h.listeners_closed;
  }
  IsLeft-Keeps fresh ss ss' k h = tt
  IsLeft-Keeps waiting ss ss' k h = tt
  IsLeft-Keeps leaving ss ss' k h = tt
  IsLeft-Keeps (replacing old req) ss ss' k h = tt
  IsLeft-Keeps (cancelling old req) ss ss' k h = tt
  IsLeft-Keeps (closing old req) ss ss' k h = tt
  IsLeft-Keeps (listening req) ss ss' k h = tt

  reap-IsClosed :
      (before after : List Listener) (l : Listener)
      → All IsClosed (before ++ l ∷ after)
      → All IsClosed (before ++ record l { is_open = false } ∷ after)
  reap-IsClosed [] after l (h, hs) = (refl, hs)
  reap-IsClosed (b ∷ before) after l (h, hs) = (h, reap-IsClosed before after l hs)

  -- The session `old` becomes `ss` and `r` goes on to `p`.
  put-Tidy :
      (w : System) (r old : ℕ) (ss : ServerSession) (p : Pc)
      → Keeps (w.state.store old) ss
      → IsLeft p (put w.state.store old ss r)
      → Tidy w
      → (q : ℕ) → IsLeft (goto w.pc r p q) (put w.state.store old ss q)
  unfolding goto
  put-Tidy w r old ss p k mine x q = elim (Bool-cases (q == r)) [
    | inl self ↦
        let self : r ≡ q = ground arith in
        subst (λ k. IsLeft (if k == r then p else w.pc k) (put w.state.store old ss k)) self
          (ground arith)
    | inr other ↦ elim (Bool-cases (q == old)) [
      | inl there ↦
          let there' : old ≡ q = ground arith in
          unfold put in
          rw (other, there)
            (IsLeft-Keeps (w.pc q) (w.state.store old) ss k
              (subst (λ k. IsLeft (w.pc q) (w.state.store k)) (sym there') (x q)))
      | inr elsewhere ↦ unfold put in rw (other, elsewhere) (x q)
    ]
  ]

  goto-Tidy :
      (w : System) (r : ℕ) (p : Pc)
      → IsLeft p (w.state.store r)
      → Tidy w
      → Tidy (record w { pc = goto w.pc r p })
  unfolding goto
  goto-Tidy w r p mine x q = elim (Bool-cases (q == r)) [
    | inl self ↦
        let e : r ≡ q = ground arith in rw self (subst (λ k. IsLeft p (w.state.store k)) e mine)
    | inr other ↦ rw other (x q)
  ]

  -- A session that is not left yet.
  IsActive-IsLeft : (p : Pc) (ss : ServerSession) → IsActive p → IsLeft p ss
  IsActive-IsLeft removed ss h = absurd h
  IsActive-IsLeft hung_up ss h = absurd h
  IsActive-IsLeft ended ss h = absurd h
  IsActive-IsLeft fresh ss h = tt
  IsActive-IsLeft waiting ss h = tt
  IsActive-IsLeft leaving ss h = tt
  IsActive-IsLeft (replacing old req) ss h = tt
  IsActive-IsLeft (cancelling old req) ss h = tt
  IsActive-IsLeft (closing old req) ss h = tt
  IsActive-IsLeft (listening req) ss h = tt

  after_replace-IsActive : (o : Option ℕ) (req : List Bytes) → IsActive (after_replace o req)
  after_replace-IsActive none req = tt
  after_replace-IsActive (some old) req = tt

  enters-Tidy :
      (w : System) (r n : ℕ) (c sid : Bytes) (req : List Bytes)
      → w.pc r ≡ fresh
      → Tidy w
      → Tidy (enter r n c sid req w)
  unfolding enter replace_session goto put
  enters-Tidy w r n c sid req e x q = elim (Bool-cases (q == r)) [
    | inl self ↦ rw self (
        IsActive-IsLeft (after_replace (lookup c w.state.sessions) req) _
          (after_replace-IsActive (lookup c w.state.sessions) req))
    | inr other ↦ rw other (x q)
  ]

  modify-Tidy :
      (w : System) (r : ℕ) (ss : ServerSession) (p : Pc)
      → Keeps (w.state.store r) ss ⊎ IsActive p
      → (IsLeft (w.pc r) (w.state.store r) → IsLeft p (w.state.store r))
      → Tidy w
      → Tidy (modify r ss p w)
  unfolding modify goto put
  modify-Tidy w r ss p k on x q = elim (Bool-cases (q == r)) [
    | inl self ↦ rw self (elim k [
      | inl keeps ↦ IsLeft-Keeps p (w.state.store r) ss keeps (on (x r))
      | inr a ↦ IsActive-IsLeft p ss a
    ])
    | inr other ↦ rw other (x q)
  ]

  on_session-Tidy :
      (w : System) (r old : ℕ) (call : ServerSession → ServerSession) (p : Pc)
      → Keeps (w.state.store old) (call (w.state.store old))
      → IsLeft p (put w.state.store old (call (w.state.store old)) r)
      → Tidy w
      → Tidy (record { state = on_session old call w.state; pc = goto w.pc r p })
  unfolding on_session
  on_session-Tidy w r old call p = put-Tidy w r old (call (w.state.store old)) p

  closes-Tidy :
      (w : System) (r : ℕ)
      → w.pc r ≡ removed
      → Tidy w
      → Tidy (record { state = on_session r close_yam w.state; pc = goto w.pc r hung_up })
  closes-Tidy w r e x =
      let left = subst (λ p. IsLeft p (w.state.store r)) e (x r) in
      on_session-Tidy w r r close_yam hung_up (λ h. h, λ h. refl, λ h. h)
        (rw (put_self w.state.store r (close_yam (w.state.store r))) (left, refl)) x

  ends-Tidy :
      (w : System) (r : ℕ)
      → w.pc r ≡ hung_up
      → Tidy w
      → Tidy (record { state = on_session r cancel w.state; pc = goto w.pc r ended })
  ends-Tidy w r e x =
      let (closed, yam) = subst (λ p. IsLeft p (w.state.store r)) e (x r) in
      on_session-Tidy w r r cancel ended (λ h. h, λ h. h, λ h. refl)
        (rw (put_self w.state.store r (cancel (w.state.store r)))
          (record { cancelled = refl; yam_closed = yam; listeners_closed = closed }))
        x

  removes-Tidy :
      (w : System) (r : ℕ)
      → Tidy w
      → Tidy (record {
        state = remove_session (w.state.store r).client_id r w.state;
        pc = goto w.pc r removed;
      })
  unfolding remove_session
  removes-Tidy w r x =
      put-Tidy w r r (close_listeners (w.state.store r)) removed
        (λ h. close_all-IsClosed (w.state.store r).listeners, λ h. h, λ h. h)
        (rw (put_self w.state.store r (close_listeners (w.state.store r)))
          (close_all-IsClosed (w.state.store r).listeners))
        x

  Step-Tidy : {w v : System} → Step allowed w v → Tidy w → Tidy v
  Step-Tidy (enters w r n c sid req e) x = enters-Tidy w r n c sid req e x
  Step-Tidy (cancels_old w r old req e) x =
      on_session-Tidy w r old cancel (cancelling old req) (λ h. h, λ h. h, λ h. refl) tt x
  Step-Tidy (closes_old w r old req e) x =
      on_session-Tidy w r old close_listeners (closing old req)
        (λ h. close_all-IsClosed (w.state.store old).listeners, λ h. h, λ h. h) tt x
  Step-Tidy (hangs_up_old w r old req e) x =
      on_session-Tidy w r old close_yam (listening req) (λ h. h, λ h. refl, λ h. h) tt x
  Step-Tidy (skips w r name rest e n) x = goto-Tidy w r _ tt x
  Step-Tidy (listens w r name rest svc e l f) x = modify-Tidy w r _ _ (inr tt) (λ h. tt) x
  Step-Tidy (cannot_listen w r name rest svc e l) x = goto-Tidy w r _ tt x
  Step-Tidy (waits w r e) x = goto-Tidy w r _ tt x
  Step-Tidy (hangs_up w r a) x =
      modify-Tidy w r _ (w.pc r) (inl (λ h. h, λ h. refl, λ h. h)) (λ h. h) x
  Step-Tidy (wakes w r e y) x = goto-Tidy w r _ tt x
  Step-Tidy (reaps w r b a l d e) x =
      modify-Tidy w r _ (w.pc r)
        (inl (λ h. reap-IsClosed b a l (subst (All IsClosed) e h), λ h. h, λ h. h)) (λ h. h) x
  Step-Tidy (removes w r e) x = removes-Tidy w r x
  Step-Tidy (closes w r e) x = closes-Tidy w r e x
  Step-Tidy (ends w r e) x = ends-Tidy w r e x

  Reach-Tidy : {w : System} → Reach allowed w → Tidy w
  Reach-Tidy here = λ r. tt
  Reach-Tidy (next reach st) = Step-Tidy st (Reach-Tidy reach)

  -- A session that has ended is cancelled, its yamux session closed, and it listens on nothing, for ever after.
  pub ended-IsShut :
      {w : System} (r : ℕ) → Reach allowed w → w.pc r ≡ ended → IsShut (w.state.store r)
  ended-IsShut {w} r reach h = subst (λ p. IsLeft p (w.state.store r)) h (Reach-Tidy reach r)
