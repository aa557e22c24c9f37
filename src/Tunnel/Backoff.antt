-- ===== src/Tunnel/Backoff.antt =====
-- The reconnect loop of Client.Run and jitterDelay, internal/tunnel/client.go. Durations are int64 nanoseconds.
pub mod Bounds
use passage.Base.{ℕ, ◌/◌, List, [], ◌∷◌, Bool, true, false, not, ◌||◌, if◌then◌else◌}
use passage.Base.Int.{ℤ, pos, pos_part, neg_part, ◌*ℤ◌, ◌+ℤ◌, ltb_ℤ, wrap64}
use passage.Config.Types.{ReconnectConfig}

-- backoff *= 2, and not more than max_backoff.
unfoldable pub next_backoff : ℤ → ℤ → ℤ
unfolding wrap64 ◌*ℤ◌
next_backoff max_backoff backoff =
    let doubled = wrap64 (backoff *ℤ 2) in
    if ltb_ℤ max_backoff doubled then max_backoff else doubled

-- base / 2 on an int64 that is positive.
unfoldable pub half_of : ℤ → ℤ
half_of base = pos (pos_part base / 2)

-- `add` is what rand.Int64N(base) returned.
unfoldable pub jitter_delay : ℤ → Bool → ℤ → ℤ
unfolding half_of wrap64 ◌+ℤ◌
jitter_delay base jitter add =
    if not jitter || not (ltb_ℤ (pos 0) base)
    then base
    else if not (ltb_ℤ (pos 0) (half_of base))
    then base
    else wrap64 (half_of base +ℤ add)

-- How one round of the loop ends: the context was cancelled before it, connectAndServe returned nil, it failed while the
-- context was cancelled, or it failed, the random number was `add`, and the sleep ended or was cancelled.
pub data Round : Type 0 where
  cancelled finished failed_cancelled : Round
  failed : ℤ → Round
  failed_asleep : ℤ → Round

-- The delays that Run sleeps, one for each failed session, until it returns nil or the rounds are used up.
unfoldable pub delays : ReconnectConfig → ℤ → List Round → List ℤ
unfolding next_backoff jitter_delay
delays r backoff [] = []
delays r backoff (cancelled ∷ rest) = []
delays r backoff (finished ∷ rest) = []
delays r backoff (failed_cancelled ∷ rest) = []
delays r backoff (failed_asleep add ∷ rest) = jitter_delay backoff r.jitter add ∷ []
delays r backoff (failed add ∷ rest) =
    jitter_delay backoff r.jitter add ∷ delays r (next_backoff r.max_backoff backoff) rest

unfoldable pub run_delays : ReconnectConfig → List Round → List ℤ
run_delays r rounds = delays r r.initial_backoff rounds
