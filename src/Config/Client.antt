-- ===== src/Config/Client.antt =====
-- ClientConfig.applyDefaults, ClientConfig.Validate and ClientConfig.ServiceNames.
pub mod Valid
use passage.Base.{
  ℕ, ◌+◌, ◌*◌, ◌==◌, not, List, [], ◌∷◌, Bytes, Map, codes, is_empty, has_prefix, length, Result,
  ok, err, ◌>>=◌, ◌>>◌, refuse_if, wrap_err,
}
use passage.Base.Int.{pos, ltb_ℤ}
use passage.Go.Time.{second}
use passage.Go.HostPort.{AddrError, split_host_port}
use passage.Config.Types.{ClientConfig, ReconnectConfig}
use passage.Config.Server.{or_default, is_nil}

pub data ClientConfigError : Type 0 where
  remote_required fingerprint_prefix_bad fingerprint_length_bad : ClientConfigError
  remote_bad : AddrError → ClientConfigError
  id_required privkey_file_required pq_privkey_file_required : ClientConfigError
  no_services service_name_empty : ClientConfigError
  target_bad : Bytes → AddrError → ClientConfigError
  initial_backoff_bad max_backoff_bad max_below_initial : ClientConfigError

unfoldable pub apply_defaults : ClientConfig → ClientConfig
unfolding or_default
apply_defaults c = record c {
  reconnect = record c.reconnect {
    initial_backoff = or_default c.reconnect.initial_backoff (1 * second);
    max_backoff = or_default c.reconnect.max_backoff (60 * second);
  };
}

unfoldable pub validate_targets : Map Bytes → Result ClientConfigError (Unit {0})
validate_targets [] = ok tt
validate_targets ((name, target) ∷ rest) = do
  refuse_if (is_empty name) service_name_empty
  _ ← wrap_err (target_bad name) (split_host_port target)
  validate_targets rest

unfoldable pub validate : ClientConfig → Result ClientConfigError (Unit {0})
validate c = do
  refuse_if (is_empty c.remote) remote_required
  _ ← wrap_err remote_bad (split_host_port c.remote)
  refuse_if (not (has_prefix (codes "sha256:") c.server_fingerprint)) fingerprint_prefix_bad
  refuse_if (not (length c.server_fingerprint == length (codes "sha256:") + 64))
      fingerprint_length_bad
  refuse_if (is_empty c.identity.id) id_required
  refuse_if (is_empty c.identity.privkey_file) privkey_file_required
  refuse_if (is_empty c.identity.pq_privkey_file) pq_privkey_file_required
  refuse_if (is_nil c.services) no_services
  validate_targets c.services
  refuse_if (not (ltb_ℤ (pos 0) c.reconnect.initial_backoff)) initial_backoff_bad
  refuse_if (not (ltb_ℤ (pos 0) c.reconnect.max_backoff)) max_backoff_bad
  refuse_if (ltb_ℤ c.reconnect.max_backoff c.reconnect.initial_backoff) max_below_initial

-- The names, in the order of the walk over the map.
unfoldable pub service_names : Map Bytes → List Bytes
service_names [] = []
service_names ((name, target) ∷ rest) = name ∷ service_names rest
