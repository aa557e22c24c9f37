-- ===== src/Proto/Messages.antt =====
-- internal/proto/messages.go. int64 fields are integers, []byte and string fields are bytes.
use passage.Base.{ℕ, ◌*◌, List, Bytes, codes}
use passage.Base.Int.{ℤ}

abbrev pub type_open : Bytes
type_open = codes "open"

abbrev pub type_heartbeat : Bytes
type_heartbeat = codes "heartbeat"

abbrev pub auth_label : Bytes
auth_label = codes "passage-auth-v1"

abbrev pub pq_auth_label : Bytes
pq_auth_label = codes "passage-client-auth-v2"

abbrev pub exporter_length : ℕ
exporter_length = 32

abbrev pub max_message_size : ℕ
max_message_size = 64 * 1024

pub record ServerHello : Type 0 where
  pub nonce : Bytes
  pub server_time : ℤ

pub record ClientAuth : Type 0 where
  pub client_id : Bytes
  pub client_time : ℤ
  pub signature : Bytes
  pub requested_services : List Bytes
  pub pq_algorithm : Bytes
  pub pq_signature : Bytes

pub record Accepted : Type 0 where
  pub session_id : Bytes

pub record AuthFailed : Type 0 where
  pub reason : Bytes

pub record Open : Type 0 where
  pub message_type : Bytes
  pub stream_id : ℕ
  pub service_name : Bytes

pub record Heartbeat : Type 0 where
  pub message_type : Bytes
  pub timestamp : ℤ
