-- ===== src/Config/Types.antt =====
-- The types of internal/config/config.go. An int and a time.Duration are integers; a map of the
-- client's services is the list of its entries, in the order in which Go happens to walk it.
use passage.Base.{List, Bytes, Bool, Map, ◌∷◌, [], Option, some, none}
use passage.Base.Int.{ℤ}

pub record TlsConfig : Type 0 where
  pub cert : Bytes
  pub key : Bytes

pub record ServiceEntry : Type 0 where
  pub name : Bytes
  pub listen : Bytes
  pub allowed_user_cidrs : List Bytes

-- A StringOrSlice is a list of strings.
pub record ClientEntry : Type 0 where
  pub id : Bytes
  pub pubkey : List Bytes
  pub pq_pubkey : List Bytes
  pub services : List ServiceEntry

pub record LimitsConfig : Type 0 where
  pub max_streams_per_client : ℤ
  pub handshake_timeout : ℤ
  pub idle_timeout : ℤ
  pub heartbeat_interval : ℤ

pub record ServerConfig : Type 0 where
  pub listen : Bytes
  pub tls : TlsConfig
  pub clients : List ClientEntry
  pub limits : LimitsConfig

pub record IdentityConfig : Type 0 where
  pub id : Bytes
  pub privkey_file : Bytes
  pub pq_privkey_file : Bytes

pub record ReconnectConfig : Type 0 where
  pub initial_backoff : ℤ
  pub max_backoff : ℤ
  pub jitter : Bool

pub record ClientConfig : Type 0 where
  pub remote : Bytes
  pub server_fingerprint : Bytes
  pub identity : IdentityConfig
  pub services : Map Bytes
  pub reconnect : ReconnectConfig

-- A YAML node, as far as StringOrSlice.UnmarshalYAML looks at it: the decoding of a scalar as a string and of
-- a sequence as strings is the YAML library's, and may fail.
pub data YamlNode : Type 0 where
  scalar : Option Bytes → YamlNode
  sequence : Option (List Bytes) → YamlNode
  other : YamlNode

unfoldable pub unmarshal_string_or_slice : YamlNode → Option (List Bytes)
unmarshal_string_or_slice (scalar none) = none
unmarshal_string_or_slice (scalar (some single)) = some (single ∷ [])
unmarshal_string_or_slice (sequence many) = many
unmarshal_string_or_slice other = none
