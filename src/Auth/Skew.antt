-- ===== src/Auth/Skew.antt =====
-- auth.CheckClockSkew of internal/auth/auth.go.
use passage.Base.{ℕ, ◌*◌, ◌≡◌, ◌↔◌, ◌⊎◌, Result, ok, err, if◌then◌else◌, arith, false, ◌-◌}
use passage.Base.Int.{ℤ, pos, negsuc, ◌≤ℤ◌, ltb_ℤ, wrap64, ◌-ℤ◌}
use passage.Go.Time.{Time, second, unix, time_sub, neg64, distance, saturate, min_duration}
use passage.Auth.Crypto.{AuthError, clock_skew}

-- MaxClockSkew, in nanoseconds.
abbrev pub max_clock_skew : ℕ
max_clock_skew = 60 * second

-- if delta < 0 { delta = -delta }
unfoldable pub magnitude : ℤ → ℤ
unfolding neg64
magnitude delta = if ltb_ℤ delta (pos 0) then neg64 delta else delta

unfoldable pub check_clock_skew : Time → ℤ → Result AuthError (Unit {0})
check_clock_skew server_now client_time =
    if ltb_ℤ (pos max_clock_skew) (magnitude (time_sub server_now (unix client_time)))
    then err clock_skew
    else ok tt

skew_within :
    (d : ℤ)
    → (ltb_ℤ (pos max_clock_skew) (magnitude (saturate d)) ≡ false)
      ↔ (((negsuc (max_clock_skew - 1) ≤ℤ d) × (d ≤ℤ pos max_clock_skew)) ⊎ (d ≤ℤ min_duration))
unfolding magnitude saturate wrap64 ◌-ℤ◌
skew_within (pos n) = (λ h. ground arith, λ h. ground arith)
skew_within (negsuc n) = (λ h. ground arith, λ h. ground arith)

-- A client's time is accepted exactly when it is at most 60 seconds from the server's clock, either way, or
-- so far ahead that the distance is -2^63 nanoseconds or less (292 years and more), where negating the
-- saturated Duration leaves it negative.
pub check_clock_skew_iff :
    (now : Time) (t : ℤ)
    → (check_clock_skew now t ≡ ok tt) ↔ (
        ((negsuc (max_clock_skew - 1) ≤ℤ distance now (unix t))
          × (distance now (unix t) ≤ℤ pos max_clock_skew))
        ⊎ (distance now (unix t) ≤ℤ min_duration))
unfolding check_clock_skew time_sub
check_clock_skew_iff now t = (
  λ h. (skew_within (distance now (unix t))).0 (ground arith),
  λ h. rw ((skew_within (distance now (unix t))).1 h),
)
