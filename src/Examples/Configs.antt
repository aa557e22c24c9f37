-- ===== src/Examples/Configs.antt =====
-- One deployment: the configurations of its server and its client.
use passage.Config.Server
use passage.Base.{
  Bytes, codes, ◌≡◌, ◌↔◌, ok, All, Bool, lookup, if◌then◌else◌, none, true, ℕ, ◌∷◌, [], has_prefix,
  some, insert, refl, Option, false, same,
}
use passage.Base.Int.{pos}
use passage.Examples.Toy.{toy_pq}
use passage.Examples.Handshakes.{alice, web_entry, key, web}
use passage.Auth.Keys.{Base64, decode_pubkey, decode_pq_pubkey}
use passage.Config.Types.{ClientConfig, ClientEntry, ServerConfig}
use passage.Tunnel.Server.{
  Tables, new_server, add_clients, add_client, decode_pubkeys, decode_pq_pubkeys, service_map,
}
use passage.Tunnel.Server.Loading.{IsLoaded, new_server-IsLoaded}
use passage.Config.Server.Valid.{server_validate_iff}
use passage.Config.Load.{load_server}
use passage.Go.Files.{Files, read_file}
use passage.Go.HostPort.{split_host_port}

abbrev pub any_cidr : Bytes → Bool
any_cidr c = true

abbrev entry : ClientEntry
entry = record {
  id = alice;
  pubkey = codes "ed25519:k" ∷ [];
  pq_pubkey = codes "mldsa:p" ∷ [];
  services = web_entry ∷ [];
}

abbrev pub server_config : ServerConfig
server_config = record {
  listen = codes ":443";
  tls = record { cert = codes "cert.pem"; key = codes "key.pem" };
  clients = entry ∷ [];
  limits = record {
    max_streams_per_client = pos 64;
    handshake_timeout = pos 10;
    idle_timeout = pos 30;
    heartbeat_interval = pos 10;
  };
}

server_validate_iff_example :
    (Server.validate any_cidr server_config ≡ ok tt) ↔ Server.Valid.IsValid any_cidr server_config
server_validate_iff_example = server_validate_iff any_cidr server_config

abbrev pub client_config : ClientConfig
client_config = record {
  remote = codes "example.org:443";
  server_fingerprint = codes "sha256:";
  identity = record { id = alice; privkey_file = codes "a"; pq_privkey_file = codes "b" };
  services = (codes "web", codes "127.0.0.1:80") ∷ [];
  reconnect = record { initial_backoff = pos 1; max_backoff = pos 8; jitter = true };
}

-- A decoder that takes the text for the key.
abbrev pub decoded_base64 : Base64
decoded_base64 = record {
  encode_std = λ b. b;
  decode_std = λ b. if has_prefix (codes "k") b then some key else some (5 ∷ []);
  decode_raw_std = λ b. none;
  decode_url = λ b. none;
  decode_raw_url = λ b. none;
}

abbrev pub loaded : Tables ℕ
loaded = record {
  clients_by_id = (alice, entry) ∷ [];
  client_pubs = (alice, key ∷ []) ∷ [];
  client_pq_pubs = (alice, some 5 ∷ []) ∷ [];
  allowed = (alice, (web, web_entry) ∷ []) ∷ [];
}

pub new_server_loads : new_server decoded_base64 toy_pq server_config ≡ ok loaded
unfolding new_server add_clients add_client decode_pubkeys decode_pq_pubkeys service_map insert
    decode_pubkey decode_pq_pubkey has_prefix
new_server_loads = refl

new_server-IsLoaded_example : All (IsLoaded decoded_base64 toy_pq loaded) server_config.clients
new_server-IsLoaded_example =
    new_server-IsLoaded decoded_base64 toy_pq server_config loaded (tt, tt) new_server_loads

abbrev pub config_file : Files
config_file = record { contents = (codes "server.yaml", codes "yaml") ∷ []; writable = λ p. false }

abbrev pub decode_yaml : Bytes → Option ServerConfig
decode_yaml b = if same b (codes "yaml") then some server_config else none

-- The file is loaded.
pub server_config_loads :
    load_server any_cidr decode_yaml config_file (codes "server.yaml") ≡ ok server_config
unfolding load_server read_file lookup same Server.apply_defaults Server.validate split_host_port
    Server.validate_clients Server.validate_client Server.validate_prefixes has_prefix
    Server.validate_services Server.validate_service Server.validate_limits
server_config_loads = refl
