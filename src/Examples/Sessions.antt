-- ===== src/Examples/Sessions.antt =====
-- Two sessions of one client, and the semaphore of the accept loop.
use passage.Base.{
  Bytes, codes, ◌≡◌, List, lookup, [], false, same, true, ◌∷◌, Bool, some, if◌then◌else◌, arith,
  not, refl,
}
use passage.Examples.Handshakes.{alice, web, web_entry}
use passage.Tunnel.Admission.{accept, start, next, here, arrives}
use passage.Tunnel.Admission.Bound.{Inv, Reach-Inv}
use passage.Tunnel.Sessions.{ServerSession, State, Listener, open_session}
use passage.Tunnel.Sessions.Replacement.{IsShut, open_session-replaces}

abbrev old_session : ServerSession
old_session = record {
  id = codes "s1";
  client_id = alice;
  cancelled = false;
  yam_closed = false;
  stream_sem = record { capacity = 64; sent = 0 };
  listeners = record { address = codes ":80"; is_open = true } ∷ [];
}

abbrev pub state : State
state = record { sessions = (alice, 1) ∷ []; store = λ r. old_session }

-- An address is free if no open listener of this session has it.
abbrev pub is_free : List Listener → Bytes → Bool
is_free [] a = true
is_free (l ∷ rest) a = if same l.address a then not l.is_open else is_free rest a

abbrev after : State
after = (open_session is_free 64 alice (codes "s2") 2 ((web, web_entry) ∷ []) (web ∷ []) state).1

open_session-replaces_example : IsShut (after.store 1) × (lookup alice after.sessions ≡ some 2)
unfolding lookup same
open_session-replaces_example =
    open_session-replaces is_free 64 alice (codes "s2") 2 1 ((web, web_entry) ∷ []) (web ∷ []) state
      refl (λ e. ground arith)

Reach-Inv_example : Inv (accept start)
Reach-Inv_example = Reach-Inv (next here (arrives start))
