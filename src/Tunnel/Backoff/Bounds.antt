-- ===== src/Tunnel/Backoff/Bounds.antt =====
-- How long the client waits between two sessions.
use native.Mathlib.Nat.{pow-suc}
use Prim.Native.Nat.{min, suc}
use passage.Tunnel.Backoff.{
  next_backoff, jitter_delay, delays, run_delays, Round, failed_asleep, failed, cancelled, finished,
  failed_cancelled,
}
use passage.Base.Int.{ℤ, pos, ◌≤ℤ◌, pos_part, neg_part, ltb_ℤ}
use passage.Base.{◌<◌, ◌^◌, arith, List, ◌/◌, ◌≤◌, All, ◌∷◌, ◌≡◌, ◌*◌, [], ℕ, true, zero, ap}
use passage.Config.Types.{ReconnectConfig}

-- A backoff that the loop can have.
abbrev pub InRange : ℤ → ℤ → ℤ → Type 0
InRange lo hi b = (lo ≤ℤ b) × (b ≤ℤ hi)

-- Doubling stays between the first backoff and the largest, if those are positive and the largest is below 2^62 nanoseconds.
next_backoff-InRange :
    (lo hi b : ℤ)
    → pos 1 ≤ℤ lo
    → pos_part hi < 2 ^ 62
    → InRange lo hi b
    → InRange lo hi (next_backoff hi b)
unfolding next_backoff
next_backoff-InRange (pos lo) (pos hi) (pos b) p q h = ground arith
next_backoff-InRange lo hi b p q h = absurd (omega arith)

-- A delay that the loop may sleep: from half the first backoff up to one and a half of the largest.
abbrev pub IsDelay : ReconnectConfig → ℤ → Type 0
IsDelay r d =
    (pos_part r.initial_backoff / 2 ≤ pos_part d)
    × (neg_part d ≡ 0)
    × (2 * pos_part d ≤ 3 * pos_part r.max_backoff)

-- The random numbers of the rounds are what rand.Int64N may return for the backoff that has been reached.
abbrev pub DrawnFrom : ReconnectConfig → ℤ → List Round → Type 0
DrawnFrom r b [] = Unit
DrawnFrom r b (cancelled ∷ rest) = Unit
DrawnFrom r b (finished ∷ rest) = Unit
DrawnFrom r b (failed_cancelled ∷ rest) = Unit
DrawnFrom r b (failed_asleep add ∷ rest) = (pos 0 ≤ℤ add) × (pos_part add < pos_part b)
DrawnFrom r b (failed add ∷ rest) =
    (pos 0 ≤ℤ add) × (pos_part add < pos_part b) × DrawnFrom r (next_backoff r.max_backoff b) rest

jitter_delay-IsDelay :
    (r : ReconnectConfig) (b add : ℤ)
    → pos 1 ≤ℤ r.initial_backoff
    → pos_part r.max_backoff < 2 ^ 62
    → InRange r.initial_backoff r.max_backoff b
    → pos 0 ≤ℤ add
    → pos_part add < pos_part b
    → IsDelay r (jitter_delay b r.jitter add)
unfolding jitter_delay
jitter_delay-IsDelay r (pos b) (pos add) p q h g l = ground arith
jitter_delay-IsDelay r b add p q h g l = absurd (omega arith)

delays-IsDelay :
    (r : ReconnectConfig) (b : ℤ) (rounds : List Round)
    → pos 1 ≤ℤ r.initial_backoff
    → pos_part r.max_backoff < 2 ^ 62
    → InRange r.initial_backoff r.max_backoff b
    → DrawnFrom r b rounds
    → All (IsDelay r) (delays r b rounds)
unfolding delays
delays-IsDelay r b [] p q h d = tt
delays-IsDelay r b (cancelled ∷ rest) p q h d = tt
delays-IsDelay r b (finished ∷ rest) p q h d = tt
delays-IsDelay r b (failed_cancelled ∷ rest) p q h d = tt
delays-IsDelay r b (failed_asleep add ∷ rest) p q h (g, l) =
    (jitter_delay-IsDelay r b add p q h g l, tt)
delays-IsDelay r b (failed add ∷ rest) p q h (g, l, d) = (
  jitter_delay-IsDelay r b add p q h g l,
  delays-IsDelay r (next_backoff r.max_backoff b) rest p q
      (next_backoff-InRange r.initial_backoff r.max_backoff b p q h) d,
)

-- With a validated reconnect section whose largest backoff is below 2^62 nanoseconds, every delay between two sessions lies
-- between half the first backoff and one and a half of the largest.
pub run_delays-IsDelay :
    (r : ReconnectConfig) (rounds : List Round)
    → pos 1 ≤ℤ r.initial_backoff
    → r.initial_backoff ≤ℤ r.max_backoff
    → pos_part r.max_backoff < 2 ^ 62
    → DrawnFrom r r.initial_backoff rounds
    → All (IsDelay r) (run_delays r rounds)
unfolding run_delays
run_delays-IsDelay r rounds p o q d =
    delays-IsDelay r r.initial_backoff rounds p q (omega arith, o) d

-- The backoff after `k` failed sessions.
unfoldable pub backoff_after : ReconnectConfig → ℕ → ℤ
backoff_after r zero = r.initial_backoff
backoff_after r (suc k) = next_backoff r.max_backoff (backoff_after r k)

next_backoff-min :
    (hi x : ℕ) → hi < 2 ^ 62 → next_backoff (pos hi) (pos (min x hi)) ≡ pos (min (2 * x) hi)
unfolding next_backoff
next_backoff-min hi x h = ground arith

-- The backoff doubles with every failed session, from the first one up to the largest.
pub backoff_after-min :
    (r : ReconnectConfig) (lo hi k : ℕ)
    → r.initial_backoff ≡ pos lo
    → r.max_backoff ≡ pos hi
    → lo ≤ hi
    → hi < 2 ^ 62
    → backoff_after r k ≡ pos (min (2 ^ k * lo) hi)
unfolding backoff_after
backoff_after-min r lo hi zero i m o h = ground arith
backoff_after-min r lo hi (suc k) i m o h =
    rw (m, backoff_after-min r lo hi k i m o h, next_backoff-min hi (2 ^ k * lo) h, pow-suc)
      (ap (λ x. pos (min x hi)) (omega arith))

-- Doubling a backoff of at least 2^62 nanoseconds that is within the configured maximum gives a negative backoff.
pub next_backoff-overflow :
    (hi b : ℕ)
    → 2 ^ 62 ≤ b
    → b ≤ hi
    → hi < 2 ^ 63
    → ltb_ℤ (next_backoff (pos hi) (pos b)) (pos 0) ≡ true
unfolding next_backoff
next_backoff-overflow hi b l o h = ground arith
