-- ===== src/Tunnel/Admission/Bound.antt =====
-- The semaphore counts the pending handshakes.
use passage.Tunnel.Admission.{
  Server, Step, arrives, leaves, Reach, here, next, accept, leave, start, Outcome, handle_control,
  Control, max_pending_handshakes,
}
use passage.Base.{arith, ◌≡◌, ◌+◌, ◌-◌, ◌≤◌, false, refl, ◌↔◌}

pub record Inv (s : Server) : Type 0 where
  pub capacity : s.handshake_sem.capacity ≡ max_pending_handshakes
  pub counted : s.handshake_sem.sent ≡ s.pending
  pub bounded : s.pending ≤ max_pending_handshakes

Step-Inv : {s t : Server} → Step s t → Inv s → Inv t
unfolding accept leave
Step-Inv (arrives s) i = ground arith
Step-Inv (leaves s Outcome.not_tls h) i = ground arith
Step-Inv (leaves s Outcome.tls_failed h) i = ground arith
Step-Inv (leaves s Outcome.exporter_failed h) i = ground arith
Step-Inv (leaves s Outcome.handshake_failed h) i = ground arith
Step-Inv (leaves s Outcome.mux_failed h) i = ground arith
Step-Inv (leaves s Outcome.session_ran h) i = ground arith

-- In every reachable state the channel holds one value for each handshake in flight, and there are at most 64.
pub Reach-Inv : {s : Server} → Reach s → Inv s
unfolding start
Reach-Inv here = record { capacity = refl; counted = refl; bounded = omega arith }
Reach-Inv (next r st) = Step-Inv st (Reach-Inv r)

-- A connection is dropped exactly if 64 handshakes are in flight.
pub accept-drops :
    {s : Server}
    → Reach s
    → ((accept s).dropped ≡ s.dropped + 1) ↔ (s.pending ≡ max_pending_handshakes)
unfolding accept
accept-drops r = let i = Reach-Inv r in ground (arith, i)

-- However handleControl ends, it gives its slot back once and leaves the connection closed.
pub handle_control-releases :
    (o : Outcome) (c : Control)
    → ((handle_control o c).handshake_sem
        ≡ record c.handshake_sem { sent = c.handshake_sem.sent - 1 })
      × ((handle_control o c).conn_open ≡ false)
unfolding handle_control
handle_control-releases Outcome.not_tls c = (refl, refl)
handle_control-releases Outcome.tls_failed c = (refl, refl)
handle_control-releases Outcome.exporter_failed c = (refl, refl)
handle_control-releases Outcome.handshake_failed c = (refl, refl)
handle_control-releases Outcome.mux_failed c = (refl, refl)
handle_control-releases Outcome.session_ran c = (refl, refl)
