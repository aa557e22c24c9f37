-- ===== src/Tunnel/Run/Served.antt =====
-- When Server.Run returns, and what holds until then.
use passage.Base.{
  ◌∷◌, [], Bool, List, ◌||◌, Bool-cases, ◌≡◌, ltb, some, true, inl, ok, ◌↔◌, Any, arith, inr, ◌≤◌,
  false,
}
use passage.Tunnel.Admission.{
  Outcome, Server, Reach, here, next, arrives, leaves, accept, start, max_pending_handshakes,
}
use passage.Tunnel.Run.{Event, connects, accept_fails, ends, accept_loop, run, of_loop, ended}
use passage.Tunnel.Admission.Bound.{Reach-Inv}

-- An error of Accept that ends the loop.
abbrev pub IsFatal : Event → Type 0
IsFatal connects = ⊥
IsFatal (ends o) = ⊥
IsFatal (accept_fails is_closed ctx_done) = (is_closed || ctx_done) ≡ true

ended-Reach : (o : Outcome) (s : Server) → Reach s → Reach (ended o s)
ended-Reach o s r = elim (Bool-cases (ltb 0 s.pending)) [
  | inl h ↦ rw h (next r (leaves s o (ground arith)))
  | inr h ↦ rw h r
]

accept_loop-Reach : (events : List Event) (s : Server) → Reach s → Reach (accept_loop events s).1
unfolding accept_loop
accept_loop-Reach [] s r = r
accept_loop-Reach (connects ∷ rest) s r = accept_loop-Reach rest (accept s) (next r (arrives s))
accept_loop-Reach (ends o ∷ rest) s r = accept_loop-Reach rest (ended o s) (ended-Reach o s r)
accept_loop-Reach (accept_fails is_closed ctx_done ∷ rest) s r =
    elim (Bool-cases (is_closed || ctx_done)) [
      | inl h ↦ rw h r
      | inr h ↦ rw h (accept_loop-Reach rest s r)
    ]

pub accept_loop_iff :
    (events : List Event) (s : Server) → ((accept_loop events s).0 ≡ true) ↔ Any IsFatal events
unfolding accept_loop
accept_loop_iff [] s = ground arith
accept_loop_iff (connects ∷ rest) s = ground (arith, accept_loop_iff rest (accept s))
accept_loop_iff (ends o ∷ rest) s = ground (arith, accept_loop_iff rest (ended o s))
accept_loop_iff (accept_fails is_closed ctx_done ∷ rest) s = ground (arith, accept_loop_iff rest s)

of_loop-bounded :
    (r : Bool × Server)
    → r.1.pending ≤ max_pending_handshakes
    → (of_loop r).1.pending ≤ max_pending_handshakes
of_loop-bounded (true, s) h = h
of_loop-bounded (false, s) h = h

-- Run returns without an error exactly if the listener could be opened and then an Accept fails because the listener is closed or the
-- context done; no other error of Accept ends it. Whatever happens, at most 64 handshakes are in flight.
pub run_iff :
    (listens : Bool) (events : List Event)
    → (((run listens events).0 ≡ some (ok tt)) ↔ ((listens ≡ true) × Any IsFatal events))
      × ((run listens events).1.pending ≤ max_pending_handshakes)
unfolding run
run_iff true events = (
  ground (arith, accept_loop_iff events start),
  of_loop-bounded (accept_loop events start)
      (Reach-Inv (accept_loop-Reach events start here)).bounded,
)
run_iff false events = (ground arith, (Reach-Inv here).bounded)
