-- ===== src/Tunnel/Relay.antt =====
-- relay of internal/tunnel/server.go: two goroutines, each of which runs io.Copy in one direction
-- and closes the connection that it wrote to. The two interleave at every read and write.
pub mod Delivery
pub mod Ends
use passage.Base.{◌≡◌, ◌≢◌, ◌⊎◌, ℕ, suc, zero, Bool, true, false, Bytes, [], ◌++◌}

-- Why io.Copy returned.
pub data Cause : Type 0 where
  at_eof read_failed write_failed : Cause

-- Where a goroutine stands: before a Read, between Read and Write with a chunk, after io.Copy, and
-- after Close and the send on `done`.
pub data Phase : Type 0 where
  reading : Phase
  holding : Bytes → Phase
  copied finished : Cause → Phase

-- One direction. `pending` holds the bytes that still arrive from the source before it ends or falls silent, `sent`
-- those that were written to the destination.
pub record Direction : Type 0 where
  pub pending : Bytes
  pub sent : Bytes
  pub phase : Phase

-- What the peers and the network do, whatever the program does: whether the peer of a connection ends what it sends after the
-- bytes that arrive, and otherwise stays silent, and whether the connection breaks at some time.
pub record Network : Type 0 where
  pub a_ends : Bool
  pub b_ends : Bool
  pub a_breaks : Bool
  pub b_breaks : Bool

-- `up` copies from a to b, `down` from b to a.
pub record State : Type 0 where
  pub up : Direction
  pub down : Direction
  pub a_closed : Bool
  pub b_closed : Bool

-- What io.Copy does next, by the flags of its source and its destination: closed, ending, and breaking. A Read
-- gives some of the bytes that arrive, or the end of them if the peer ends, and blocks if nothing arrives and the peer does not end;
-- a Read or a Write fails only on a connection that is closed or that breaks, and then a part of the chunk may be on its way.
pub data Move (src_closed src_ends src_breaks dst_closed dst_breaks : Bool)
    : Direction → Direction → Type 0 where
  read :
      (d : Direction) (chunk rest : Bytes)
      → d.phase ≡ reading
      → d.pending ≡ chunk ++ rest
      → chunk ≢ []
      → src_closed ≡ false
      → Move src_closed src_ends src_breaks dst_closed dst_breaks d
          (record d { pending = rest; phase = holding chunk })
  eof :
      (d : Direction)
      → d.phase ≡ reading
      → d.pending ≡ []
      → src_ends ≡ true
      → src_closed ≡ false
      → Move src_closed src_ends src_breaks dst_closed dst_breaks d
          (record d { phase = copied at_eof })
  read_fails :
      (d : Direction)
      → d.phase ≡ reading
      → (src_closed ≡ true) ⊎ (src_breaks ≡ true)
      → Move src_closed src_ends src_breaks dst_closed dst_breaks d
          (record d { phase = copied read_failed })
  write :
      (d : Direction) (chunk : Bytes)
      → d.phase ≡ holding chunk
      → dst_closed ≡ false
      → Move src_closed src_ends src_breaks dst_closed dst_breaks d
          (record d { sent = d.sent ++ chunk; phase = reading })
  write_fails :
      (d : Direction) (part lost : Bytes)
      → d.phase ≡ holding (part ++ lost)
      → (dst_closed ≡ true) ⊎ (dst_breaks ≡ true)
      → Move src_closed src_ends src_breaks dst_closed dst_breaks d
          (record d { sent = d.sent ++ part; phase = copied write_failed })

-- One of the two goroutines goes on: its io.Copy, or the Close after it.
pub data Step (n : Network) : State → State → Type 0 where
  up_copies :
      (s : State) (d : Direction)
      → Move s.a_closed n.a_ends n.a_breaks s.b_closed n.b_breaks s.up d
      → Step n s (record s { up = d })
  down_copies :
      (s : State) (d : Direction)
      → Move s.b_closed n.b_ends n.b_breaks s.a_closed n.a_breaks s.down d
      → Step n s (record s { down = d })
  up_closes :
      (s : State) (w : Cause)
      → s.up.phase ≡ copied w
      → Step n s (record s { up = record s.up { phase = finished w }; b_closed = true })
  down_closes :
      (s : State) (w : Cause)
      → s.down.phase ≡ copied w
      → Step n s (record s { down = record s.down { phase = finished w }; a_closed = true })

-- The two connections as relay gets them: what arrives on each.
abbrev pub start : Bytes → Bytes → State
start from_a from_b = record {
  up = record { pending = from_a; sent = []; phase = reading };
  down = record { pending = from_b; sent = []; phase = reading };
  a_closed = false;
  b_closed = false;
}

-- The states that relay gets to in so many steps.
pub data Reach (n : Network) (s : State) : ℕ → State → Type 0 where
  here : Reach n s zero s
  next : {k : ℕ} {t u : State} → Reach n s k t → Step n t u → Reach n s (suc k) u

-- relay returns after two receives from `done`.
abbrev pub IsFinished : Phase → Type 0
IsFinished (finished w) = Unit
IsFinished _ = ⊥
