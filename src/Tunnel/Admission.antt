-- ===== src/Tunnel/Admission.antt =====
-- The accept loop of Server.Run with its semaphore, and handleControl, internal/tunnel/server.go.
pub mod Bound
use passage.Base.{ℕ, ◌+◌, ◌-◌, Bool, true, false, Option, some, none, ◌<◌}
use passage.Go.Channel.{Chan, try_send, receive}

abbrev pub max_pending_handshakes : ℕ
max_pending_handshakes = 64

-- How far handleControl got with a connection.
pub data Outcome : Type 0 where
  not_tls tls_failed exporter_failed handshake_failed mux_failed session_ran : Outcome

-- What handleControl owns: the semaphore and the connection.
pub record Control : Type 0 where
  pub handshake_sem : Chan
  pub conn_open : Bool

-- The deferred function: if semHeld { <-s.handshakeSem; raw.Close() }
unfoldable pub release : Bool → Control → Control
unfolding receive
release true c = record { handshake_sem = receive c.handshake_sem; conn_open = false }
release false c = c

-- handleControl up to the point where it is not counted as a pending handshake any more, and to its end. An early return
-- leaves semHeld true; before runSession the slot is given back and semHeld set to false, and tlsConn.Close() is deferred.
unfoldable pub handle_control : Outcome → Control → Control
unfolding release receive
handle_control session_ran c =
    let c' = record c { handshake_sem = receive c.handshake_sem } in
    release false (record c' { conn_open = false })
handle_control _ c = release true c

-- The server while it runs: the semaphore, the handshakes in flight, and the connections that were dropped.
pub record Server : Type 0 where
  pub handshake_sem : Chan
  pub pending : ℕ
  pub dropped : ℕ

abbrev after_select : Server → Option Chan → Server
after_select s (some c) = record s { handshake_sem = c; pending = s.pending + 1 }
after_select s none = record s { dropped = s.dropped + 1 }

-- One turn of the accept loop with a connection.
unfoldable pub accept : Server → Server
unfolding try_send
accept s = after_select s (try_send s.handshake_sem)

-- A handleControl goroutine gives its slot back, at any of its ends.
unfoldable pub leave : Outcome → Server → Server
unfolding handle_control
leave o s = record s {
  handshake_sem =
      (handle_control o
        (record { handshake_sem = s.handshake_sem; conn_open = true })).handshake_sem;
  pending = s.pending - 1;
}

unfoldable pub start : Server
start = record {
  handshake_sem = record { capacity = max_pending_handshakes; sent = 0 };
  pending = 0;
  dropped = 0;
}

-- The interleavings: connections arrive, and goroutines in flight end, in any order.
pub data Step : Server → Server → Type 0 where
  arrives : (s : Server) → Step s (accept s)
  leaves : (s : Server) (o : Outcome) → 0 < s.pending → Step s (leave o s)

pub data Reach : Server → Type 0 where
  here : Reach start
  next : {s t : Server} → Reach s → Step s t → Reach t
