-- ===== src/Config/Client/Valid.antt =====
-- What the client's Validate accepts, described without its loop.
use passage.Base.{Map, Bytes, ◌≡◌, ◌≢◌, ◌↔◌, All, arith, [], ok, codes, length, ◌∷◌}
use passage.Base.Int.{pos, ◌≤ℤ◌}
use passage.Config.Types.{ClientConfig}
use passage.Config.Client.{validate, validate_targets}
use passage.Config.Server.Valid.{IsAddress, HasPrefix}

-- A name that is not empty and an address.
abbrev pub IsTarget : Bytes × Bytes → Type 0
IsTarget (name, target) = (name ≢ []) × IsAddress target

targets_iff : (m : Map Bytes) → (validate_targets m ≡ ok tt) ↔ All IsTarget m
unfolding validate_targets
targets_iff [] = ground arith
targets_iff ((name, target) ∷ m) = ground (arith, targets_iff m)

pub record IsValid (c : ClientConfig) : Type 0 where
  pub remote_given : c.remote ≢ []
  pub remote_address : IsAddress c.remote
  pub fingerprint_prefix : HasPrefix (codes "sha256:") c.server_fingerprint
  pub fingerprint_length : length c.server_fingerprint ≡ 71
  pub id_given : c.identity.id ≢ []
  pub privkey_given : c.identity.privkey_file ≢ []
  pub pq_privkey_given : c.identity.pq_privkey_file ≢ []
  pub services_given : c.services ≢ []
  pub targets_valid : All IsTarget c.services
  pub backoff_positive : pos 1 ≤ℤ c.reconnect.initial_backoff
  pub backoff_ordered : c.reconnect.initial_backoff ≤ℤ c.reconnect.max_backoff

-- Validate returns nil exactly for the valid configurations, whatever the order in which Go walks the map.
pub client_validate_iff : (c : ClientConfig) → (validate c ≡ ok tt) ↔ IsValid c
unfolding validate
client_validate_iff c = ground (arith, targets_iff c.services)
