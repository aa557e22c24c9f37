-- ===== src/Mux.antt =====
-- internal/mux/mux.go: the settings of yamux on both sides. yamux is a parameter: its default settings, and which settings a new
-- session accepts.
pub mod Intervals
use passage.Base.{Bool, Option, none, some, if◌then◌else◌}
use passage.Base.Int.{ℤ, pos, ltb_ℤ}

-- mux.Config
pub record Config : Type 0 where
  pub heartbeat_interval : ℤ
  pub idle_timeout : ℤ

-- The writers that a log goes to: os.Stderr and io.Discard.
pub data Writer : Type 0 where
  stderr discard : Writer

-- Of a yamux.Config, what the program sets. `rest` stands for the other fields.
pub record Yamux (Rest : Type 0) : Type 0 where
  pub keep_alive_interval : ℤ
  pub connection_write_timeout : ℤ
  pub log_output : Option Writer
  pub logger : Option Writer
  pub rest : Rest

module _ {Rest : Type 0} (default_config : Yamux Rest) where
  unfoldable pub to_yamux_config : Config → Yamux Rest
  to_yamux_config c =
      let cfg = default_config in
      let cfg =
        if ltb_ℤ (pos 0) c.heartbeat_interval
        then record cfg { keep_alive_interval = c.heartbeat_interval }
        else cfg in
      let cfg =
        if ltb_ℤ (pos 0) c.idle_timeout
        then record cfg { connection_write_timeout = c.idle_timeout }
        else cfg in
      record cfg { log_output = none; logger = some discard }

  -- mux.Server and mux.Client: what yamux's function of that name makes of the settings over the connection.
  unfoldable pub server :
      {Session : Type 0} → (Yamux Rest → Option Session) → Config → Option Session
  unfolding to_yamux_config
  server yamux_server c = yamux_server (to_yamux_config c)

  unfoldable pub client :
      {Session : Type 0} → (Yamux Rest → Option Session) → Config → Option Session
  unfolding to_yamux_config
  client yamux_client c = yamux_client (to_yamux_config c)
