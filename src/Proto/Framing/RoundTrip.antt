-- ===== src/Proto/Framing/RoundTrip.antt =====
-- What write_message sends, and what read_message makes of it.
use passage.Base.{ℕ, suc, ◌≤◌, ◌≡◌, refl, Bytes, some, length, [], ◌++◌, ok, arith}
use passage.Go.Endian.{put_uint32, uint32-put_uint32}
use passage.Go.Io.{Conn, read_full-append}
use passage.Proto.Messages.{max_message_size}
use passage.Proto.Framing.{Json, write_message, read_message, frame}
use passage.Proto.Framing.Limits.{write_message_cases}
use mathlib.Core.List.{append_assoc}

length-put_uint32 : (n : ℕ) → length (put_uint32 n) ≡ 4
unfolding put_uint32
length-put_uint32 n = refl

module _ {A : Type 0} (j : Json A) where
  -- On a connection that takes two more writes, a message of at most 64 KiB is sent as one frame.
  pub write_message-frame :
      (v : A) (body : Bytes) (c : Conn) (n : ℕ)
      → j.marshal v ≡ some body
      → length body ≤ max_message_size
      → c.writes_left ≡ suc (suc n)
      → write_message j v c
        ≡ (ok tt, record c { outgoing = c.outgoing ++ frame body; writes_left = n })
  unfolding write_message frame
  write_message-frame v body c n e small w =
      ground (arith, append_assoc c.outgoing (put_uint32 (length body)) body)

  -- A frame that has arrived is read as its body, and what follows is left.
  pub read_message-frame :
      (v : A) (body r : Bytes) (c : Conn)
      → j.unmarshal body ≡ some v
      → length body ≤ max_message_size
      → c.incoming ≡ frame body ++ r
      → read_message j c ≡ (ok v, record c { incoming = r })
  unfolding read_message frame
  read_message-frame v body r c e small arrived = ground (
    arith,
    append_assoc (put_uint32 (length body)) body r,
    read_full-append (put_uint32 (length body)) (body ++ r) c,
    length-put_uint32 (length body),
    uint32-put_uint32 (length body),
    read_full-append body r (record c { incoming = body ++ r }),
  )

  -- A message that was sent on a fresh connection is what the peer reads, when what was sent arrives with anything behind
  -- it, and the peer stops right after it; if encoding/json reads back what it wrote and it is at most 64 KiB.
  pub read_message-write_message :
      (v : A) (body r : Bytes) (c d peer : Conn)
      → j.marshal v ≡ some body
      → j.unmarshal body ≡ some v
      → length body ≤ max_message_size
      → c.outgoing ≡ []
      → write_message j v c ≡ (ok tt, d)
      → peer.incoming ≡ d.outgoing ++ r
      → read_message j peer ≡ (ok v, record peer { incoming = r })
  read_message-write_message v body r c d peer e u small fresh sent arrived =
      let o : d.outgoing ≡ frame body = ground (arith, write_message_cases j v c) in
      read_message-frame v body r peer u small (rw o at arrived)
