-- ===== src/QuickDocker/Render.antt =====
-- The addresses, names and files of internal/quickdocker/generate.go.
pub mod Addresses
pub mod MapOrder
pub mod Unordered
pub mod Arranged
use passage.Base.{
  List, [], ◌∷◌, ◌++◌, Bytes, Map, codes, same, is_empty, lookup, Option, some, none, Result, ok,
  err, ◌||◌, if◌then◌else◌,
}
use passage.Go.HostPort.{AddrError, split_host_port}
use passage.Go.Sort.{sort_strings}
use passage.QuickDocker.Spec.{Spec, ServiceEntry, mode_host}

abbrev pub image : Bytes
image = codes "ghcr.io/jfhack/passage:latest"

-- host, port, _ := net.SplitHostPort(addr): both are empty after an error.
abbrev pub halves : Result AddrError (Bytes × Bytes) → Bytes × Bytes
halves (ok hp) = hp
halves (err e) = ([], [])

unfoldable pub server_listen_for_service : Spec → ServiceEntry → Bytes
server_listen_for_service spec sv =
    if same spec.server.mode mode_host
    then sv.server
    else codes "0.0.0.0:" ++ (halves (split_host_port sv.server)).1

unfoldable pub host_port_mapping : Bytes → Bytes
host_port_mapping addr =
    let (host, port) = halves (split_host_port addr) in
    if is_empty host || (same host (codes "0.0.0.0") || same host (codes "::"))
    then port ++ (codes ":" ++ port)
    else host ++ (codes ":" ++ (port ++ (codes ":" ++ port)))

unfoldable pub service_keys : Map ServiceEntry → List Bytes
service_keys [] = []
service_keys ((name, sv) ∷ rest) = name ∷ service_keys rest

unfoldable pub sorted_service_names : Map ServiceEntry → List Bytes
unfolding service_keys sort_strings
sorted_service_names m = sort_strings (service_keys m)

-- spec.Services[name]: the zero value for a missing key.
abbrev pub or_zero : Option ServiceEntry → ServiceEntry
or_zero none = record { client = []; server = [] }
or_zero (some sv) = sv

-- What a loop over the sorted names writes, one piece for each service.
unfoldable pub for_each :
    (Bytes → ServiceEntry → List Bytes) → Map ServiceEntry → List Bytes → List Bytes
for_each f m [] = []
for_each f m (name ∷ rest) = f name (or_zero (lookup name m)) ++ for_each f m rest

unfoldable pub server_published_ports : Spec → List Bytes
unfolding host_port_mapping for_each
server_published_ports spec =
    host_port_mapping spec.server.listen
    ∷ for_each (λ name sv. host_port_mapping sv.server ∷ []) spec.services
        (sorted_service_names spec.services)

unfoldable pub container_name : Spec → Bytes → Bytes
container_name spec role =
    if is_empty spec.project_name
    then codes "passage-" ++ role
    else spec.project_name ++ (codes "-" ++ (codes "passage-" ++ role))

-- A file is the list of its lines, each ended by a newline when it is written.
unfoldable pub render_server_yaml : Spec → Bytes → Bytes → List Bytes
unfolding for_each
render_server_yaml spec client_pubkey client_pq_pubkey =
    (codes "listen: " ++ spec.server.listen)
    ∷ []
    ∷ codes "tls:"
    ∷ codes "  cert: /etc/passage/server.crt"
    ∷ codes "  key:  /etc/passage/server.key"
    ∷ []
    ∷ codes "clients:"
    ∷ (codes "  - id: " ++ spec.client.identity.id)
    ∷ (codes "    pubkey: " ++ client_pubkey)
    ∷ (codes "    pq_pubkey: " ++ client_pq_pubkey)
    ∷ codes "    services:"
    ∷ (for_each
          (λ name sv.
            (codes "      - name: " ++ name)
            ∷ (codes "        listen: " ++ server_listen_for_service spec sv)
            ∷ [])
          spec.services (sorted_service_names spec.services)
        ++ ([]
            ∷ codes "limits:"
            ∷ codes "  max_streams_per_client: 256"
            ∷ codes "  handshake_timeout: 10s"
            ∷ codes "  idle_timeout: 5m"
            ∷ codes "  heartbeat_interval: 30s"
            ∷ []))

unfoldable pub render_client_yaml : Spec → Bytes → List Bytes
unfolding for_each
render_client_yaml spec fingerprint =
    (codes "remote: " ++ spec.server.address)
    ∷ []
    ∷ (codes "server_fingerprint: " ++ fingerprint)
    ∷ []
    ∷ codes "identity:"
    ∷ (codes "  id: " ++ spec.client.identity.id)
    ∷ codes "  privkey_file: /etc/passage/client.ed25519"
    ∷ codes "  pq_privkey_file: /etc/passage/client.mldsa"
    ∷ []
    ∷ codes "services:"
    ∷ (for_each (λ name sv. (codes "  " ++ (name ++ (codes ": " ++ sv.client))) ∷ []) spec.services
          (sorted_service_names spec.services)
        ++ ([]
            ∷ codes "reconnect:"
            ∷ codes "  initial_backoff: 1s"
            ∷ codes "  max_backoff: 60s"
            ∷ codes "  jitter: true"
            ∷ []))
