-- ===== src/Tunnel/Sessions.antt =====
-- The table of sessions of internal/tunnel/server.go: replaceSession, removeSession, shutdown and the parts of runSession. A
-- *serverSession is its number; the sessions stand in a store, since the table, the goroutine and a successor share them.
pub mod Current
pub mod Interleaving
pub mod Others
pub mod Replacement
use passage.Base.{
  ℕ, ◌==◌, List, [], ◌∷◌, ◌++◌, Bool, true, false, Bytes, Map, Option, none, some, lookup, insert,
  delete, if◌then◌else◌, ◌≡◌, ◌≢◌, arith,
}
use passage.Go.Channel.{Chan}
use passage.Config.Types.{ServiceEntry}

-- A net.Listener: its address and whether it is listening.
pub record Listener : Type 0 where
  pub address : Bytes
  pub is_open : Bool

pub record ServerSession : Type 0 where
  pub id : Bytes
  pub client_id : Bytes
  pub cancelled : Bool
  pub yam_closed : Bool
  pub listeners : List Listener
  pub stream_sem : Chan

-- `sessions` is the map that the mutex guards, `store` what the pointers point to.
pub record State : Type 0 where
  pub sessions : Map ℕ
  pub store : ℕ → ServerSession

unfoldable pub put : (ℕ → ServerSession) → ℕ → ServerSession → ℕ → ServerSession
put store r sess q = if q == r then sess else store q

pub put_self :
    (store : ℕ → ServerSession) (r : ℕ) (sess : ServerSession) → put store r sess r ≡ sess
unfolding put
put_self store r sess = ground arith

pub put_ne :
    (store : ℕ → ServerSession) (r q : ℕ) (sess : ServerSession)
    → r ≢ q
    → put store r sess q ≡ store q
unfolding put
put_ne store r q sess h = ground arith

-- for _, ln := range listeners { _ = ln.Close() }
unfoldable pub close_all : List Listener → List Listener
close_all [] = []
close_all (l ∷ rest) = record l { is_open = false } ∷ close_all rest

unfoldable pub replace_session : Bytes → ℕ → State → Option ℕ × State
replace_session client_id ns s =
    (lookup client_id s.sessions, record s { sessions = insert client_id ns s.sessions })

-- delete(s.sessions, clientID), if the entry is this session.
unfoldable pub delete_current : Bytes → ℕ → Map ℕ → Option ℕ → Map ℕ
delete_current client_id ns sessions none = sessions
delete_current client_id ns sessions (some cur) =
    if cur == ns then delete client_id sessions else sessions

unfoldable pub remove_session : Bytes → ℕ → State → State
unfolding delete_current close_all
remove_session client_id ns s = record {
  sessions = delete_current client_id ns s.sessions (lookup client_id s.sessions);
  store = put s.store ns (record (s.store ns) { listeners = close_all (s.store ns).listeners });
}

unfoldable pub shutdown : ℕ → State → State
unfolding close_all
shutdown ss s = record s {
  store = put s.store ss (record (s.store ss) {
    cancelled = true;
    yam_closed = true;
    listeners = close_all (s.store ss).listeners;
  });
}

-- if old := s.replaceSession(...); old != nil { old.shutdown() }
unfoldable pub shutdown_old : Option ℕ × State → State
unfolding shutdown
shutdown_old (none, s) = s
shutdown_old (some old, s) = shutdown old s

-- The loop over the requested services. `free` tells whether net.Listen succeeds, by what the session listens on already and the
-- address. The result is whether the loop ran to its end.
module _ (free : List Listener → Bytes → Bool) where
  unfoldable pub listen : ServiceEntry → ServerSession → Bool × ServerSession
  listen svc sess =
      if free sess.listeners svc.listen
      then (
        true,
        record sess {
          listeners = sess.listeners ++ (record { address = svc.listen; is_open = true } ∷ []);
        },
      )
      else (false, sess)

  abbrev listen_next : Option ServiceEntry → ServerSession → Bool × ServerSession
  listen_next none sess = (true, sess)
  listen_next (some svc) sess = listen svc sess

  unfoldable pub listen_services :
      Map ServiceEntry → List Bytes → ServerSession → Bool × ServerSession
  unfolding listen
  listen_services allowed [] sess = (true, sess)
  listen_services allowed (name ∷ rest) sess =
      let step = listen_next (lookup name allowed) sess in
      let later = listen_services allowed rest step.1 in if step.0 then later else step

  -- runSession up to where it waits for the client to go: the new session, at the fresh number `ns`, is entered, the
  -- old one shut down, and the services are listened on. The result is whether it got that far.
  unfoldable pub open_session :
      ℕ → Bytes → Bytes → ℕ → Map ServiceEntry → List Bytes → State → Bool × State
  unfolding replace_session shutdown_old listen_services
  open_session max_streams client_id session_id ns allowed requested s =
      let sess : ServerSession = record {
        id = session_id;
        client_id = client_id;
        cancelled = false;
        yam_closed = false;
        listeners = [];
        stream_sem = record { capacity = max_streams; sent = 0 };
      } in
      let entered = replace_session client_id ns (record s { store = put s.store ns sess }) in
      let alone = shutdown_old entered in
      let (done, sess') = listen_services allowed requested (alone.store ns) in
      (done, record alone { store = put alone.store ns sess' })

-- The deferred calls at the end of runSession: removeSession, yam.Close and cancel.
unfoldable pub close_session : Bytes → ℕ → State → State
unfolding remove_session
close_session client_id ns s =
    let t = remove_session client_id ns s in
    record t {
      store = put t.store ns (record (t.store ns) { cancelled = true; yam_closed = true });
    }
