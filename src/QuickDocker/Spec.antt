-- ===== src/QuickDocker/Spec.antt =====
-- internal/quickdocker/spec.go.
pub mod Valid
use passage.Base.{
  ℕ, ◌&&◌, ◌||◌, not, List, [], ◌∷◌, Bytes, Map, codes, is_empty, same, leb, lookup, insert, Option,
  none, some, Result, ok, err, ◌>>=◌, ◌>>◌, refuse_if, wrap_err, if◌then◌else◌, Bool, false, true,
  ◌==◌,
}
use passage.Go.HostPort.{AddrError, split_host_port}
use passage.Config.Server.{is_nil}

pub record ServerSection : Type 0 where
  pub listen : Bytes
  pub address : Bytes
  pub mode : Bytes

pub record ClientIdentity : Type 0 where
  pub id : Bytes

pub record ClientSection : Type 0 where
  pub identity : ClientIdentity
  pub mode : Bytes

-- Where the client reaches the service, and where the server listens for its users.
pub record ServiceEntry : Type 0 where
  pub client : Bytes
  pub server : Bytes

-- `services` are the entries of the map, in the order in which Go happens to walk it.
pub record Spec : Type 0 where
  pub server : ServerSection
  pub client : ClientSection
  pub project_name : Bytes
  pub services : Map ServiceEntry

pub data SpecError : Type 0 where
  listen_required address_required id_required no_services service_name_empty : SpecError
  listen_bad address_bad : AddrError → SpecError
  mode_required : Bytes → SpecError
  mode_unknown : Bytes → Bytes → SpecError
  project_name_bad service_client_required service_server_required : Bytes → SpecError
  service_client_bad service_server_bad : Bytes → AddrError → SpecError
  server_reused : Bytes → Bytes → Bytes → SpecError

abbrev pub mode_host : Bytes
mode_host = codes "host"

abbrev pub mode_isolated : Bytes
mode_isolated = codes "isolated"

unfoldable pub validate_mode : Bytes → Bytes → Result SpecError (Unit {0})
validate_mode mode field =
    if same mode mode_host || same mode mode_isolated
    then ok tt
    else if is_empty mode
    then err (mode_required field)
    else err (mode_unknown field mode)

-- The character classes [a-z0-9] and [a-z0-9_-] of projectNameRE.
unfoldable pub is_name_start : ℕ → Bool
is_name_start c = (leb b'a' c && leb c b'z') || (leb b'0' c && leb c b'9')

unfoldable pub is_name_char : ℕ → Bool
unfolding is_name_start
is_name_char c = is_name_start c || (c == b'_' || c == b'-')

unfoldable pub all_name_chars : Bytes → Bool
unfolding is_name_char
all_name_chars [] = true
all_name_chars (c ∷ rest) = is_name_char c && all_name_chars rest

-- projectNameRE.MatchString: ^[a-z0-9][a-z0-9_-]*$
unfoldable pub match_project_name : Bytes → Bool
unfolding all_name_chars
match_project_name [] = false
match_project_name (c ∷ rest) = is_name_start c && all_name_chars rest

-- The entry of a map, where it has one.
abbrev pub unused : Bytes → Bytes → Option Bytes → Result SpecError (Unit {0})
unused name address none = ok tt
unused name address (some owner) = err (server_reused name address owner)

unfoldable pub validate_services : Map Bytes → Map ServiceEntry → Result SpecError (Unit {0})
validate_services seen [] = ok tt
validate_services seen ((name, sv) ∷ rest) = do
  refuse_if (is_empty name) service_name_empty
  refuse_if (is_empty sv.client) (service_client_required name)
  _ ← wrap_err (service_client_bad name) (split_host_port sv.client)
  refuse_if (is_empty sv.server) (service_server_required name)
  _ ← wrap_err (service_server_bad name) (split_host_port sv.server)
  unused name sv.server (lookup sv.server seen)
  validate_services (insert sv.server name seen) rest

unfoldable pub validate : Spec → Result SpecError (Unit {0})
unfolding match_project_name
validate s = do
  refuse_if (is_empty s.server.listen) listen_required
  _ ← wrap_err listen_bad (split_host_port s.server.listen)
  refuse_if (is_empty s.server.address) address_required
  _ ← wrap_err address_bad (split_host_port s.server.address)
  validate_mode s.server.mode (codes "server.mode")
  validate_mode s.client.mode (codes "client.mode")
  refuse_if (is_empty s.client.identity.id) id_required
  refuse_if (not (is_empty s.project_name) && not (match_project_name s.project_name))
      (project_name_bad s.project_name)
  refuse_if (is_nil s.services) no_services
  validate_services [] s.services
