-- ===== src/Config/Load.antt =====
-- LoadServer and LoadClient of internal/config/config.go. The YAML decoder is a parameter.
pub mod Loaded
use passage.Base.{Bytes, Option, Result, ok, or_err, wrap_err, ◌>>=◌, ◌>>◌, Bool}
use passage.Go.Files.{Files, read_file}
use passage.Config.Types.{ServerConfig, ClientConfig}
use passage.Config.Server.{ConfigError}
use passage.Config.Client.{ClientConfigError}
use passage.Config.Server
use passage.Config.Client

pub data LoadError : Type 0 where
  unreadable not_yaml : LoadError
  server_invalid : ConfigError → LoadError
  client_invalid : ClientConfigError → LoadError

-- `decode` is strictUnmarshal: the decoder with KnownFields on the first document.
unfoldable pub load_server :
    (Bytes → Bool) → (Bytes → Option ServerConfig) → Files → Bytes → Result LoadError ServerConfig
load_server cidr_ok decode f path = do
  data_ ← or_err (read_file f path) unreadable
  c ← or_err (decode data_) not_yaml
  let c' = Server.apply_defaults c
  wrap_err server_invalid (Server.validate cidr_ok c')
  ok c'

unfoldable pub load_client :
    (Bytes → Option ClientConfig) → Files → Bytes → Result LoadError ClientConfig
load_client decode f path = do
  data_ ← or_err (read_file f path) unreadable
  c ← or_err (decode data_) not_yaml
  let c' = Client.apply_defaults c
  wrap_err client_invalid (Client.validate c')
  ok c'
