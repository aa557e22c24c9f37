-- ===== src/QuickDocker/Spec/Valid.antt =====
-- What the specification's Validate accepts, described without its loop.
use passage.QuickDocker.Spec.{
  Spec, ServiceEntry, validate, validate_services, validate_mode, mode_host, match_project_name,
  mode_isolated,
}
use passage.Base.{
  Bytes, Map, ◌≡◌, List, is_empty, ok, ◌≢◌, [], false, ◌↔◌, ◌∷◌, ◌⊎◌, All, arith, refl, Threaded,
  codes, same_iff, true, Distinct, Threaded-Distinct, insert, keys,
}
use passage.Config.Server.Valid.{IsAddress}
use passage.Go.HostPort.{split_host_port}

abbrev pub IsMode : Bytes → Type 0
IsMode m = (m ≡ mode_host) ⊎ (m ≡ mode_isolated)

abbrev pub IsService : Bytes × ServiceEntry → Type 0
IsService (name, sv) = (name ≢ []) × IsAddress sv.client × IsAddress sv.server

-- The server addresses, each with the name under which the loop records it.
abbrev pub servers : Map ServiceEntry → List (Bytes × Bytes)
servers [] = []
servers ((name, sv) ∷ rest) = (sv.server, name) ∷ servers rest

validate_mode_iff : (m field : Bytes) → (validate_mode m field ≡ ok tt) ↔ IsMode m
unfolding validate_mode
validate_mode_iff m field = ground (arith, same_iff m mode_host, same_iff m mode_isolated)

pub empty-not-address : (s : Bytes) → IsAddress s → is_empty s ≡ false
unfolding split_host_port
empty-not-address [] h = cc
empty-not-address (x ∷ s) h = refl

validate_services_iff :
    (seen : Map Bytes) (m : Map ServiceEntry)
    → (validate_services seen m ≡ ok tt) ↔ (All IsService m × Threaded seen (servers m))
unfolding validate_services
validate_services_iff seen [] = ground arith
validate_services_iff seen ((name, sv) ∷ m) = ground (
  arith,
  validate_services_iff (insert sv.server name seen) m,
  empty-not-address sv.client,
  empty-not-address sv.server,
)

pub record IsValid (s : Spec) : Type 0 where
  pub listen_address : IsAddress s.server.listen
  pub server_address : IsAddress s.server.address
  pub server_mode : IsMode s.server.mode
  pub client_mode : IsMode s.client.mode
  pub id_given : s.client.identity.id ≢ []
  pub name_matches : (s.project_name ≡ []) ⊎ (match_project_name s.project_name ≡ true)
  pub services_given : s.services ≢ []
  pub services_valid : All IsService s.services
  pub servers_distinct : Distinct (keys (servers s.services))

-- Validate returns nil exactly for the valid specifications, whatever the order in which Go walks the services.
pub spec_validate_iff : (s : Spec) → (validate s ≡ ok tt) ↔ IsValid s
unfolding validate
spec_validate_iff s = ground (
  arith,
  validate_mode_iff s.server.mode (codes "server.mode"),
  validate_mode_iff s.client.mode (codes "client.mode"),
  validate_services_iff [] s.services,
  Threaded-Distinct (servers s.services),
  empty-not-address s.server.listen,
  empty-not-address s.server.address,
)
