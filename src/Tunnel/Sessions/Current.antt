-- ===== src/Tunnel/Sessions/Current.antt =====
-- Which session the table holds for a client, after any interleaving of replaceSession and removeSession.
use passage.Tunnel.Sessions.{State, replace_session, remove_session, delete_current}
use passage.Base.{
  Bytes, List, ℕ, ◌∷◌, ◌≢◌, [], lookup, ◌≡◌, some, arith, lookup-insert, same_iff, All, Map, none,
  Option, same_refl, Bool-cases, lookup-delete, refl, ◌==◌, inl, same, same→eq, ap, inr,
}

-- The two critical sections, in the order in which the mutex lets them run.
pub data Event : Type 0 where
  replaced removed : Bytes → ℕ → Event

unfoldable pub step : Event → State → State
unfolding replace_session remove_session
step (replaced c r) s = (replace_session c r s).1
step (removed c r) s = remove_session c r s

unfoldable pub run : List Event → State → State
run [] s = s
run (e ∷ es) s = run es (step e s)

-- The event leaves session `r` of client `c` in the table: it enters no other session for the client and does not remove this one.
abbrev pub Leaves : Bytes → ℕ → Event → Type 0
Leaves c r (replaced d q) = d ≢ c
Leaves c r (removed d q) = (d ≡ c) → q ≢ r

abbrev pub NoEntry : Bytes → Event → Type 0
NoEntry c (replaced d q) = d ≢ c
NoEntry c (removed d q) = Unit

pub delete_current-keeps :
    (c : Bytes) (r : ℕ) (d : Bytes) (q : ℕ) (m : Map ℕ) (cur : Option ℕ)
    → lookup d m ≡ cur
    → lookup c m ≡ some r
    → ((d ≡ c) → q ≢ r)
    → lookup c (delete_current d q m cur) ≡ some r
unfolding delete_current
delete_current-keeps c r d q m none e h l = h
delete_current-keeps c r d q m (some x) e h l = elim (Bool-cases (x == q)) [
  | inl b ↦ rw b (
      rw lookup-delete (elim (Bool-cases (same d c)) [
        | inl f ↦ let f = same→eq d c f in absurd (l f (ground (arith, ap (λ k. lookup k m) f)))
        | inr f ↦ rw f h
      ]))
  | inr b ↦ rw b h
]

delete_current-empty :
    (c d : Bytes) (q : ℕ) (m : Map ℕ) (cur : Option ℕ)
    → lookup c m ≡ none
    → lookup c (delete_current d q m cur) ≡ none
unfolding delete_current
delete_current-empty c d q m none h = h
delete_current-empty c d q m (some x) h = ground (arith, lookup-delete d c m)

delete_current_self :
    (c : Bytes) (r : ℕ) (m : Map ℕ) (cur : Option ℕ)
    → cur ≡ some r
    → lookup c (delete_current c r m cur) ≡ none
unfolding delete_current
delete_current_self c r m none h = cc
delete_current_self c r m (some x) h = ground (arith, lookup-delete c c m, same_refl c)

step-keeps :
    (c : Bytes) (r : ℕ) (e : Event) (s : State)
    → lookup c s.sessions ≡ some r
    → Leaves c r e
    → lookup c (step e s).sessions ≡ some r
unfolding step
step-keeps c r (replaced d q) s h l = ground (arith, lookup-insert d c q s.sessions, same_iff d c)
step-keeps c r (removed d q) s h l =
    delete_current-keeps c r d q s.sessions (lookup d s.sessions) refl h l

run-keeps :
    (c : Bytes) (r : ℕ) (es : List Event) (s : State)
    → lookup c s.sessions ≡ some r
    → All (Leaves c r) es
    → lookup c (run es s).sessions ≡ some r
unfolding run
run-keeps c r [] s h l = h
run-keeps c r (e ∷ es) s h (l, ls) = run-keeps c r es (step e s) (step-keeps c r e s h l) ls

-- A session that was entered stays the client's session, whatever other sessions come and go, until another one of this client
-- is entered or it is removed itself: the late removal of an older session does not take it out.
pub run-current :
    (c : Bytes) (r : ℕ) (es : List Event) (s : State)
    → All (Leaves c r) es
    → lookup c (run (replaced c r ∷ es) s).sessions ≡ some r
unfolding run step
run-current c r es s l = run-keeps c r es _ (rw (lookup-insert, same_refl)) l

step-empty :
    (c : Bytes) (e : Event) (s : State)
    → lookup c s.sessions ≡ none
    → NoEntry c e
    → lookup c (step e s).sessions ≡ none
unfolding step
step-empty c (replaced d q) s h l = ground (arith, lookup-insert d c q s.sessions, same_iff d c)
step-empty c (removed d q) s h l = delete_current-empty c d q s.sessions (lookup d s.sessions) h

run-empty :
    (c : Bytes) (es : List Event) (s : State)
    → lookup c s.sessions ≡ none
    → All (NoEntry c) es
    → lookup c (run es s).sessions ≡ none
unfolding run
run-empty c [] s h l = h
run-empty c (e ∷ es) s h (l, ls) = run-empty c es (step e s) (step-empty c e s h l) ls

-- Once the client's session is removed, the table has none for it until another is entered.
pub run-removed :
    (c : Bytes) (r : ℕ) (es : List Event) (s : State)
    → lookup c s.sessions ≡ some r
    → All (NoEntry c) es
    → lookup c (run (removed c r ∷ es) s).sessions ≡ none
unfolding run step
run-removed c r es s h l =
    run-empty c es _ (delete_current_self c r s.sessions (lookup c s.sessions) h) l
