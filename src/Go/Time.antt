-- ===== src/Go/Time.antt =====
-- package time: instants, and the saturating difference of two of them in nanoseconds.
use passage.Base.{ℕ, ◌-◌, ◌^◌, if◌then◌else◌}
use passage.Base.Int.{ℤ, pos, negsuc, ◌+ℤ◌, ◌-ℤ◌, ◌*ℤ◌, ltb_ℤ, wrap64}

-- A time.Time: whole seconds since year 1, an int64, and nanoseconds.
pub record Time : Type 0 where
  pub sec : ℤ
  pub nsec : ℕ

-- One second, as a time.Duration.
abbrev pub second : ℕ
second = 1_000_000_000

-- The seconds from year 1 to 1970.
abbrev pub unix_to_internal : ℕ
unix_to_internal = 62_135_596_800

-- time.Unix(sec, 0)
unfoldable pub unix : ℤ → Time
unix s = record { sec = wrap64 (s +ℤ pos unix_to_internal); nsec = 0 }

abbrev pub min_duration : ℤ
min_duration = negsuc (2 ^ 63 - 1)

abbrev pub max_duration : ℤ
max_duration = pos (2 ^ 63 - 1)

-- The distance from `u` to `t` in nanoseconds, with no bound.
unfoldable pub distance : Time → Time → ℤ
distance t u = (t.sec *ℤ second +ℤ pos t.nsec) -ℤ (u.sec *ℤ second +ℤ pos u.nsec)

unfoldable pub saturate : ℤ → ℤ
saturate d =
    if ltb_ℤ d min_duration then min_duration else if ltb_ℤ max_duration d then max_duration else d

-- t.Sub(u): a distance that no Duration holds becomes the nearest Duration.
unfoldable pub time_sub : Time → Time → ℤ
time_sub t u = saturate (distance t u)

-- -d on an int64: the least Duration is its own negative.
unfoldable pub neg64 : ℤ → ℤ
unfolding wrap64
neg64 d = wrap64 (pos 0 -ℤ d)
