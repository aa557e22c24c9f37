-- ===== src/Proto/Framing.antt =====
-- internal/proto/framing.go. encoding/json is a parameter: a codec for the message's type.
pub mod RoundTrip
pub mod Limits
use passage.Base.{
  ◌+◌, ◌≡◌, Bytes, Option, some, ltb, length, ◌++◌, or_err, refuse_if, Result, ok, err, ℕ,
}
use passage.Go.Endian.{put_uint32, uint32}
use passage.Go.Io.{Conn, IoError, M, ◌>>=◌, ◌>>◌, pure, wrap, write, read_full}
use passage.Proto.Messages.{max_message_size}

-- json.Marshal and json.Unmarshal at one type.
pub record Json (A : Type 0) : Type 0 where
  pub marshal : A → Option Bytes
  pub unmarshal : Bytes → Option A

pub data ProtoError : Type 0 where
  marshal_failed message_too_large unmarshal_failed : ProtoError
  io : IoError → ProtoError

module _ {A : Type 0} (j : Json A) where
  unfoldable pub write_message : A → M ProtoError (Unit {0})
  unfolding write
  write_message v = do
    body ← pure (or_err (j.marshal v) marshal_failed)
    pure (refuse_if (ltb max_message_size (length body)) message_too_large)
    wrap io (write (put_uint32 (length body)))
    wrap io (write body)

  -- The second half of ReadMessage, once the header has announced n bytes.
  unfoldable pub read_body : ℕ → M ProtoError A
  read_body n = do
    pure (refuse_if (ltb max_message_size n) message_too_large)
    body ← wrap io (read_full n)
    pure (or_err (j.unmarshal body) unmarshal_failed)

  unfoldable pub read_message : M ProtoError A
  unfolding read_body
  read_message = do hdr ← wrap io (read_full 4); read_body (uint32 hdr)

-- The bytes of one message on the wire.
unfoldable pub frame : Bytes → Bytes
frame body = put_uint32 (length body) ++ body
