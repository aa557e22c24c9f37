-- ===== src/Go/Channel.antt =====
-- A buffered channel of empty structs, used as a counting semaphore.
use passage.Base.{ℕ, ◌+◌, ◌-◌, ltb, Option, some, none, if◌then◌else◌}

-- `sent` values are in the buffer, which has room for `capacity`.
pub record Chan : Type 0 where
  pub capacity : ℕ
  pub sent : ℕ

-- select { case c <- struct{}{}: … default: … }; `none` is the default branch.
unfoldable pub try_send : Chan → Option Chan
try_send c = if ltb c.sent c.capacity then some (record c { sent = c.sent + 1 }) else none

-- <-c, where a value is in the buffer.
unfoldable pub receive : Chan → Chan
receive c = record c { sent = c.sent - 1 }
