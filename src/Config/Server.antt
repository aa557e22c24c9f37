-- ===== src/Config/Server.antt =====
-- ServerConfig.applyDefaults and ServerConfig.Validate.
pub mod Valid
use passage.Base.{
  ℕ, suc, ◌+◌, ◌*◌, ◌||◌, Bool, true, not, List, [], ◌∷◌, ◌++◌, Bytes, Map, codes, is_empty,
  has_prefix, lookup, insert, Option, none, some, Result, ok, err, ◌>>=◌, ◌>>◌, refuse_if, wrap_err,
  if◌then◌else◌,
}
use passage.Base.Int.{ℤ, pos, ltb_ℤ, eqb_ℤ}
use passage.Go.Time.{second}
use passage.Go.HostPort.{AddrError, split_host_port}
use passage.Config.Types.{ServerConfig, TlsConfig, LimitsConfig, ClientEntry, ServiceEntry}

pub data ConfigError : Type 0 where
  listen_required tls_required no_clients : ConfigError
  listen_bad : AddrError → ConfigError
  client_id_required : ℕ → ConfigError
  duplicate_client_id pubkey_required pubkey_prefix_bad : Bytes → ConfigError
  pq_pubkey_required pq_pubkey_prefix_bad service_required : Bytes → ConfigError
  service_name_required : Bytes → ℕ → ConfigError
  duplicate_service : Bytes → Bytes → ConfigError
  service_listen_bad : Bytes → Bytes → AddrError → ConfigError
  listen_reused : Bytes → Bytes → ConfigError
  cidr_bad : Bytes → Bytes → Bytes → ConfigError
  max_streams_bad handshake_timeout_bad idle_timeout_bad : ConfigError
  heartbeat_interval_bad heartbeat_not_less : ConfigError

-- A field that is 0 takes its default.
unfoldable pub or_default : ℤ → ℕ → ℤ
or_default z d = if eqb_ℤ z (pos 0) then pos d else z

unfoldable pub apply_defaults : ServerConfig → ServerConfig
unfolding or_default
apply_defaults c = record c {
  limits = record {
    max_streams_per_client = or_default c.limits.max_streams_per_client 256;
    handshake_timeout = or_default c.limits.handshake_timeout (10 * second);
    idle_timeout = or_default c.limits.idle_timeout (5 * (60 * second));
    heartbeat_interval = or_default c.limits.heartbeat_interval (30 * second);
  };
}

-- Every text starts with the prefix; otherwise the error.
unfoldable pub validate_prefixes : Bytes → ConfigError → List Bytes → Result ConfigError (Unit {0})
validate_prefixes p e [] = ok tt
validate_prefixes p e (s ∷ rest) = refuse_if (not (has_prefix p s)) e >> validate_prefixes p e rest

-- Errors when a key is already in a map.
abbrev pub absent : {V : Type 0} → Option V → (V → ConfigError) → Result ConfigError (Unit {0})
absent none e = ok tt
absent (some v) e = err (e v)

abbrev pub is_nil {ℓ} : {A : Type ℓ} → List A → Bool
is_nil [] = true
is_nil (x ∷ xs) = Bool.false

-- `cidr_ok` is whether netip.ParsePrefix takes a text.
module _ (cidr_ok : Bytes → Bool) where
  unfoldable pub validate_cidrs : Bytes → Bytes → List Bytes → Result ConfigError (Unit {0})
  validate_cidrs id name [] = ok tt
  validate_cidrs id name (cidr ∷ rest) =
      refuse_if (not (cidr_ok cidr)) (cidr_bad id name cidr) >> validate_cidrs id name rest

  -- The body of the inner loop, on services[j] of the client `id`; returns `listens`.
  unfoldable pub validate_service :
      Bytes → ℕ → Map (Unit {0}) → Map Bytes → ServiceEntry → Result ConfigError (Map Bytes)
  unfolding validate_cidrs
  validate_service id j seen_svc listens s = do
    refuse_if (is_empty s.name) (service_name_required id j)
    absent (lookup s.name seen_svc) (λ _. duplicate_service id s.name)
    _ ← wrap_err (service_listen_bad id s.name) (split_host_port s.listen)
    absent (lookup s.listen listens) (λ owner. listen_reused s.listen owner)
    validate_cidrs id s.name s.allowed_user_cidrs
    ok (insert s.listen (id ++ (codes "/" ++ s.name)) listens)

  unfoldable pub validate_services :
      Bytes → ℕ → Map (Unit {0}) → Map Bytes → List ServiceEntry → Result ConfigError (Map Bytes)
  validate_services id j seen_svc listens [] = ok listens
  validate_services id j seen_svc listens (s ∷ rest) = do
    listens' ← validate_service id j seen_svc listens s
    validate_services id (j + 1) (insert s.name tt seen_svc) listens' rest

  -- The body of the outer loop, on clients[i]; returns `listens`.
  unfoldable pub validate_client :
      ℕ → Map (Unit {0}) → Map Bytes → ClientEntry → Result ConfigError (Map Bytes)
  validate_client i seen_ids listens ce = do
    refuse_if (is_empty ce.id) (client_id_required i)
    absent (lookup ce.id seen_ids) (λ _. duplicate_client_id ce.id)
    refuse_if (is_nil ce.pubkey) (pubkey_required ce.id)
    validate_prefixes (codes "ed25519:") (pubkey_prefix_bad ce.id) ce.pubkey
    refuse_if (is_nil ce.pq_pubkey) (pq_pubkey_required ce.id)
    validate_prefixes (codes "mldsa:") (pq_pubkey_prefix_bad ce.id) ce.pq_pubkey
    refuse_if (is_nil ce.services) (service_required ce.id)
    validate_services ce.id 0 [] listens ce.services

  unfoldable pub validate_clients :
      ℕ → Map (Unit {0}) → Map Bytes → List ClientEntry → Result ConfigError (Unit {0})
  validate_clients i seen_ids listens [] = ok tt
  validate_clients i seen_ids listens (ce ∷ rest) = do
    listens' ← validate_client i seen_ids listens ce
    validate_clients (i + 1) (insert ce.id tt seen_ids) listens' rest

  unfoldable pub validate_limits : LimitsConfig → Result ConfigError (Unit {0})
  validate_limits l = do
    refuse_if (ltb_ℤ l.max_streams_per_client (pos 1)) max_streams_bad
    refuse_if (not (ltb_ℤ (pos 0) l.handshake_timeout)) handshake_timeout_bad
    refuse_if (not (ltb_ℤ (pos 0) l.idle_timeout)) idle_timeout_bad
    refuse_if (not (ltb_ℤ (pos 0) l.heartbeat_interval)) heartbeat_interval_bad
    refuse_if (not (ltb_ℤ l.heartbeat_interval l.idle_timeout)) heartbeat_not_less

  unfoldable pub validate : ServerConfig → Result ConfigError (Unit {0})
  validate c = do
    refuse_if (is_empty c.listen) listen_required
    _ ← wrap_err listen_bad (split_host_port c.listen)
    refuse_if (is_empty c.tls.cert || is_empty c.tls.key) tls_required
    refuse_if (is_nil c.clients) no_clients
    validate_clients 0 [] [] c.clients
    validate_limits c.limits
