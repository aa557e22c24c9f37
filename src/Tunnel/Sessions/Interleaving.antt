-- ===== src/Tunnel/Sessions/Interleaving.antt =====
-- runSession and shutdown of internal/tunnel/server.go as goroutines that interleave: one for each session, with the goroutines that
-- close its listeners after its context. The mutex makes replaceSession and removeSession single steps.
pub mod Addresses
pub mod Registry
pub mod Leases
use passage.Base.{
  ℕ, ◌==◌, ◌≡◌, Bool, true, false, Bytes, List, [], ◌∷◌, ◌++◌, Map, Option, none, some, lookup,
  if◌then◌else◌, All, Any,
}
use passage.Config.Types.{ServiceEntry}
use passage.Tunnel.Server.{or_nil}
use passage.Tunnel.Sessions.{
  Listener, ServerSession, State, put, replace_session, remove_session, close_all,
}

-- Where the goroutine of a session stands: not started; between replaceSession and old.shutdown(), or in the latter after cancel or
-- after the listeners; in the loop over the requested services that are left; at the receive from yam.CloseChan(); before
-- removeSession, before yam.Close, before cancel, and after them.
pub data Pc : Type 0 where
  fresh waiting leaving removed hung_up ended : Pc
  replacing cancelling closing : ℕ → List Bytes → Pc
  listening : List Bytes → Pc

pub record System : Type 0 where
  pub state : State
  pub pc : ℕ → Pc

unfoldable pub goto : (ℕ → Pc) → ℕ → Pc → ℕ → Pc
goto pcs r p q = if q == r then p else pcs q

-- Between replaceSession and removeSession.
abbrev pub IsActive : Pc → Type 0
IsActive fresh = ⊥
IsActive removed = ⊥
IsActive hung_up = ⊥
IsActive ended = ⊥
IsActive _ = Unit

-- The session holds the address.
abbrev pub Holds : Bytes → ServerSession → Type 0
Holds a ss = Any (λ (l : Listener). (l.address ≡ a) × (l.is_open ≡ true)) ss.listeners

-- net.Listen can only succeed where no session holds the address.
abbrev pub IsFree : System → Bytes → Type 0
IsFree w a = (q : ℕ) → Holds a (w.state.store q) → ⊥

-- `max_streams` is MaxStreamsPerClient.
abbrev pub new_session : ℕ → Bytes → Bytes → ServerSession
new_session max_streams c sid = record {
  id = sid;
  client_id = c;
  cancelled = false;
  yam_closed = false;
  listeners = [];
  stream_sem = record { capacity = max_streams; sent = 0 };
}

abbrev after_replace : Option ℕ → List Bytes → Pc
after_replace none requested = listening requested
after_replace (some old) requested = replacing old requested

-- sess := &serverSession{…}; old := s.replaceSession(clientID, sess)
unfoldable pub enter : ℕ → ℕ → Bytes → Bytes → List Bytes → System → System
unfolding replace_session put
enter r n c sid requested w =
    let (old, state') =
      replace_session c r (record w.state { store = put w.state.store r (new_session n c sid) }) in
    record { state = state'; pc = goto w.pc r (after_replace old requested) }

abbrev pub cancel : ServerSession → ServerSession
cancel ss = record ss { cancelled = true }

abbrev pub close_listeners : ServerSession → ServerSession
close_listeners ss = record ss { listeners = close_all ss.listeners }

abbrev pub close_yam : ServerSession → ServerSession
close_yam ss = record ss { yam_closed = true }

-- A call on the session with the number `old`.
unfoldable pub on_session : ℕ → (ServerSession → ServerSession) → State → State
unfolding put
on_session old call s = record s { store = put s.store old (call (s.store old)) }

-- The session `r` becomes `ss`.
unfoldable pub modify : ℕ → ServerSession → Pc → System → System
unfolding put goto
modify r ss p w = record {
  state = record w.state { store = put w.state.store r ss };
  pc = goto w.pc r p;
}

-- s.allowed[clientID][name], for the tables of the server.
abbrev pub service : Map (Map ServiceEntry) → System → ℕ → Bytes → Option ServiceEntry
service allowed w r name = lookup name (or_nil (lookup (w.state.store r).client_id allowed))

pub data Step (allowed : Map (Map ServiceEntry)) : System → System → Type 0 where
  enters :
      (w : System) (r n : ℕ) (c sid : Bytes) (requested : List Bytes)
      → w.pc r ≡ fresh
      → Step allowed w (enter r n c sid requested w)
  -- old.shutdown(), whose listeners and yamux session are closed one after the other.
  cancels_old :
      (w : System) (r old : ℕ) (requested : List Bytes)
      → w.pc r ≡ replacing old requested
      → Step allowed w (record {
        state = on_session old cancel w.state;
        pc = goto w.pc r (cancelling old requested);
      })
  closes_old :
      (w : System) (r old : ℕ) (requested : List Bytes)
      → w.pc r ≡ cancelling old requested
      → Step allowed w (record {
        state = on_session old close_listeners w.state;
        pc = goto w.pc r (closing old requested);
      })
  hangs_up_old :
      (w : System) (r old : ℕ) (requested : List Bytes)
      → w.pc r ≡ closing old requested
      → Step allowed w (record {
        state = on_session old close_yam w.state;
        pc = goto w.pc r (listening requested);
      })
  skips :
      (w : System) (r : ℕ) (name : Bytes) (rest : List Bytes)
      → w.pc r ≡ listening (name ∷ rest)
      → service allowed w r name ≡ none
      → Step allowed w (record w { pc = goto w.pc r (listening rest) })
  listens :
      (w : System) (r : ℕ) (name : Bytes) (rest : List Bytes) (svc : ServiceEntry)
      → w.pc r ≡ listening (name ∷ rest)
      → service allowed w r name ≡ some svc
      → IsFree w svc.listen
      → Step allowed w (
          modify r
            (record (w.state.store r) {
              listeners =
                  (w.state.store r).listeners
                  ++ record { address = svc.listen; is_open = true } ∷ [];
            })
            (listening rest)
            w)
  cannot_listen :
      (w : System) (r : ℕ) (name : Bytes) (rest : List Bytes) (svc : ServiceEntry)
      → w.pc r ≡ listening (name ∷ rest)
      → service allowed w r name ≡ some svc
      → Step allowed w (record w { pc = goto w.pc r leaving })
  waits :
      (w : System) (r : ℕ)
      → w.pc r ≡ listening []
      → Step allowed w (record w { pc = goto w.pc r waiting })
  -- The client goes, or yamux gives up on it.
  hangs_up :
      (w : System) (r : ℕ)
      → IsActive (w.pc r)
      → Step allowed w (modify r (record (w.state.store r) { yam_closed = true }) (w.pc r) w)
  wakes :
      (w : System) (r : ℕ)
      → w.pc r ≡ waiting
      → (w.state.store r).yam_closed ≡ true
      → Step allowed w (record w { pc = goto w.pc r leaving })
  -- <-ctx.Done(); ln.Close() of acceptUsers
  reaps :
      (w : System) (r : ℕ) (before after : List Listener) (l : Listener)
      → (w.state.store r).cancelled ≡ true
      → (w.state.store r).listeners ≡ before ++ l ∷ after
      → Step allowed w (
          modify r
            (record (w.state.store r) {
              listeners = before ++ record l { is_open = false } ∷ after;
            })
            (w.pc r)
            w)
  -- The deferred calls: removeSession, yam.Close and cancel.
  removes :
      (w : System) (r : ℕ)
      → w.pc r ≡ leaving
      → Step allowed w (record {
        state = remove_session (w.state.store r).client_id r w.state;
        pc = goto w.pc r removed;
      })
  closes :
      (w : System) (r : ℕ)
      → w.pc r ≡ removed
      → Step allowed w (record { state = on_session r close_yam w.state; pc = goto w.pc r hung_up })
  ends :
      (w : System) (r : ℕ)
      → w.pc r ≡ hung_up
      → Step allowed w (record { state = on_session r cancel w.state; pc = goto w.pc r ended })

-- No session yet.
abbrev pub boot : System
boot = record {
  state = record { sessions = []; store = λ r. new_session 0 [] [] };
  pc = λ r. fresh;
}

pub data Reach (allowed : Map (Map ServiceEntry)) : System → Type 0 where
  here : Reach allowed boot
  next : {w v : System} → Reach allowed w → Step allowed w v → Reach allowed v
