-- ===== src/Examples/Started.antt =====
-- A server that is started from its file.
use passage.Cmd.{Shell}
use passage.Cmd.Start.{run_server, configured_server}
use passage.Cmd.Start.Serving.{IsReady, run_server-IsReady}
use passage.Tunnel.Run.{Configured, Event, connects, accept_fails, make_server, run, accept_loop}
use passage.Tunnel.Run.Served.{IsFatal, run_iff}
use passage.Tunnel.Admission.{max_pending_handshakes}
use passage.Tunnel.Tls.{Certificate, server_settings, server_tls_config}
use passage.Examples.Configs.{
  any_cidr, decode_yaml, config_file, server_config, decoded_base64, loaded, new_server_loads,
  server_config_loads,
}
use passage.Examples.Toy.{toy_pq}
use passage.Base.{
  List, [], codes, some, true, ℕ, Bytes, ◌∷◌, ◌≡◌, Option, false, ok, refl, ◌↔◌, Any, ◌≤◌,
}
use passage.Config.Load.{load_server}
use passage.Go.Files.{Files}

-- A connection, an error that is logged, and the error at the end.
abbrev events : List Event
events = connects ∷ (accept_fails false false ∷ (accept_fails false true ∷ []))

run_iff_example :
    (((run true events).0 ≡ some (ok tt)) ↔ ((true ≡ true) × Any IsFatal events))
    × ((run true events).1.pending ≤ max_pending_handshakes)
run_iff_example = run_iff true events

abbrev certificate : Certificate
certificate = record { chain = codes "der" ∷ [] }

abbrev load_pair : Files → Bytes → Bytes → Option Certificate
load_pair f cert_file key_file = some certificate

abbrev shell : Shell
shell = record { files = config_file; stdout = [] }

abbrev server : Configured ℕ
server = record { cfg = server_config; tls_cfg = server_settings certificate; tables = loaded }

server_starts :
    (run_server any_cidr decode_yaml load_pair decoded_base64 toy_pq
      (some (codes "server.yaml"))
      true
      events
      shell).0
    ≡ ok (server, true)
unfolding run_server configured_server make_server server_tls_config run accept_loop
server_starts = rw (server_config_loads, new_server_loads) refl

run_server-IsReady_example :
    (load_server any_cidr decode_yaml config_file (codes "server.yaml") ≡ ok server_config)
    × IsReady any_cidr decode_yaml load_pair decoded_base64 toy_pq config_file server
    × (true ≡ true)
    × ((true ≡ true) ↔ Any IsFatal events)
run_server-IsReady_example =
    run_server-IsReady any_cidr decode_yaml load_pair decoded_base64 toy_pq (codes "server.yaml")
      true events shell server true server_starts
