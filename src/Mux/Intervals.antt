-- ===== src/Mux/Intervals.antt =====
-- The intervals that a session of yamux runs with.
use passage.Base.{◌≡◌, none, some, arith}
use passage.Base.Int.{pos, ◌≤ℤ◌}
use passage.Mux.{Config, Yamux, to_yamux_config, discard}

-- What yamux.VerifyConfig wants of the fields that the program sets: positive intervals, and one of the two logs.
pub record IsSound {Rest : Type 0} (y : Yamux Rest) : Type 0 where
  pub keep_alive : pos 1 ≤ℤ y.keep_alive_interval
  pub write_timeout : pos 1 ≤ℤ y.connection_write_timeout
  pub silent : y.log_output ≡ none
  pub discards : y.logger ≡ some discard

module _ {Rest : Type 0} (default_config : Yamux Rest) where
  -- Whatever the configuration holds, the settings are sound if yamux's default intervals are positive; and only the intervals and the
  -- logs differ from the default.
  pub to_yamux_config-IsSound :
      (c : Config)
      → pos 1 ≤ℤ default_config.keep_alive_interval
      → pos 1 ≤ℤ default_config.connection_write_timeout
      → IsSound (to_yamux_config default_config c)
        × ((to_yamux_config default_config c).rest ≡ default_config.rest)
  unfolding to_yamux_config
  to_yamux_config-IsSound c k w = (
    record {
      keep_alive = ground arith;
      write_timeout = ground arith;
      silent = ground arith;
      discards = ground arith;
    },
    ground arith,
  )

  -- Positive intervals of the configuration are those of the settings.
  pub to_yamux_config-intervals :
      (c : Config)
      → pos 1 ≤ℤ c.heartbeat_interval
      → pos 1 ≤ℤ c.idle_timeout
      → ((to_yamux_config default_config c).keep_alive_interval ≡ c.heartbeat_interval)
        × ((to_yamux_config default_config c).connection_write_timeout ≡ c.idle_timeout)
  unfolding to_yamux_config
  to_yamux_config-intervals c h i = ground arith
