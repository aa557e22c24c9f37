-- ===== src/QuickDocker/Compose.antt =====
-- The two compose files of internal/quickdocker/generate.go, as lists of lines.
use passage.Base.{List, [], ◌∷◌, ◌++◌, Bytes, codes, same, if◌then◌else◌}
use passage.Go.Quote.{quote}
use passage.QuickDocker.Spec.{Spec, mode_host}
use passage.QuickDocker.Render.{image, container_name, server_published_ports}

unfoldable pub compose_project_name : Spec → Bytes → Bytes
unfolding container_name
compose_project_name spec role = container_name spec role

unfoldable pub port_lines : List Bytes → List Bytes
unfolding quote
port_lines [] = []
port_lines (mapping ∷ rest) = (codes "      - " ++ quote mapping) ∷ port_lines rest

-- What both files begin with.
head_lines : Spec → Bytes → List Bytes
head_lines spec role =
    (codes "name: " ++ compose_project_name spec role)
    ∷ []
    ∷ codes "services:"
    ∷ codes "  passage:"
    ∷ (codes "    image: " ++ image)
    ∷ (codes "    container_name: " ++ container_name spec role)
    ∷ codes "    restart: unless-stopped"
    ∷ []

unfoldable pub render_server_compose : Spec → List Bytes
unfolding head_lines server_published_ports port_lines
render_server_compose spec =
    head_lines spec (codes "server")
    ++ ((if same spec.server.mode mode_host
          then codes "    network_mode: host" ∷ []
          else codes "    ports:" ∷ port_lines (server_published_ports spec))
        ++ (codes "    volumes:"
            ∷ codes "      - ./keys/server.crt:/etc/passage/server.crt:ro"
            ∷ codes "      - ./keys/server.key:/etc/passage/server.key:ro"
            ∷ codes "      - ./server.yaml:/etc/passage/server.yaml:ro"
            ∷ codes "    command: [\"server\", \"-config\", \"/etc/passage/server.yaml\"]"
            ∷ []))

unfoldable pub render_client_compose : Spec → List Bytes
unfolding head_lines
render_client_compose spec =
    head_lines spec (codes "client")
    ++ ((if same spec.client.mode mode_host then codes "    network_mode: host" ∷ [] else [])
        ++ (codes "    volumes:"
            ∷ codes "      - ./keys/client.ed25519:/etc/passage/client.ed25519:ro"
            ∷ codes "      - ./keys/client.mldsa:/etc/passage/client.mldsa:ro"
            ∷ codes "      - ./client.yaml:/etc/passage/client.yaml:ro"
            ∷ codes "    command: [\"client\", \"-config\", \"/etc/passage/client.yaml\"]"
            ∷ []))
