-- ===== src/Examples/Clients.antt =====
-- A client that connects, the streams it gets, and the users of a service.
use passage.Cmd.{Shell}
use passage.Cmd.Verify.{run_verify, run_verify_iff}
use passage.Examples.KeyFiles.{plain_pem, files}
use passage.Config.Load.{load_client}
use passage.Base.{
  ℕ, Bytes, List, codes, [], ◌∷◌, ◌≡◌, ◌↔◌, Any, refl, true, false, some, ok, length, replicate,
  Option, is_empty, if◌then◌else◌, none, ◌==◌, ◌&&◌, same,
}
use passage.Base.Int.{pos}
use passage.Examples.Toy.{toy_ed, toy_pq, toy_codecs, toy_open}
use passage.Examples.Handshakes.{key, web_entry, exporter_bytes, client_end}
use passage.Examples.Configs.{client_config}
use passage.Examples.Streams.{textual, peer}
use passage.Config.Types.{ServiceEntry, ClientConfig}
use passage.Tunnel.Client.{Client, Attempt, Turn, run_client, new_client}
use passage.Tunnel.Client.Serving.{IsEstablished}
use passage.Tunnel.Client.Reconnects.{run_client_reconnects}
use passage.Tunnel.Users.{User, Arrival, arrives, fails, accept_users, proxied}
use passage.Tunnel.Users.Admitted.{before_end, IsWelcome, accept_users_iff}
use passage.Mux.{Yamux, stderr}
use passage.Mux
use passage.Proto.Messages.{auth_label}

abbrev pub yamux_defaults : Yamux ℕ
yamux_defaults = record {
  keep_alive_interval = pos 30;
  connection_write_timeout = pos 10;
  log_output = some stderr;
  logger = none;
  rest = 256;
}

abbrev pub digest : Bytes
digest = replicate 32 9

abbrev pub client : Client ℕ
client = record { cfg = client_config; want = digest; priv = key; pq_priv = 5 }

-- ExportKeyingMaterial, which depends on its arguments.
abbrev pub keying : Bytes → Option Bytes → ℕ → Bytes
keying label none n = if (n == 32) && same label auth_label then exporter_bytes else label
keying label (some context) n = context

abbrev pub exported : Bytes → Option Bytes → ℕ → Option Bytes
exported label context n = some (keying label context n)

abbrev pub first_attempt : Attempt ℕ
first_attempt = record {
  dials = true;
  tls = some (record { peer_certificates = digest ∷ []; curve_id = 4588 });
  exporter = exported;
  conn = client_end;
  now = pos 990;
  default_config = yamux_defaults;
  yamux_client = λ y. some tt;
  streams = peer ∷ [];
  stopped = false;
}

-- The configuration's text is not read.
abbrev decode_config : Bytes → Option ClientConfig
decode_config b = some client_config

abbrev shell : Shell
shell = record { files = files; stdout = [] }

run_verify_iff_example :
    ((run_verify decode_config plain_pem
        (λ cert. cert)
        toy_codecs
        toy_open
        toy_ed
        toy_pq
        (some (codes "client.yaml"))
        first_attempt
        shell).0
      ≡ ok tt)
    ↔ ((is_empty (codes "client.yaml") ≡ false)
        × ((cfg : ClientConfig) × (c : Client ℕ) × (load_client decode_config files
                (codes "client.yaml")
              ≡ ok cfg)
            × (new_client plain_pem toy_ed toy_pq files cfg ≡ ok c)
            × IsEstablished (λ cert. cert) toy_codecs toy_open toy_ed toy_pq c first_attempt))
run_verify_iff_example =
    run_verify_iff decode_config plain_pem (λ cert. cert) toy_codecs toy_open toy_ed toy_pq
      (codes "client.yaml") first_attempt shell

abbrev turn : Turn ℕ
turn = record {
  done_before = false;
  attempt = first_attempt;
  done_after = false;
  add = pos 0;
  slept = true;
}

run_client_reconnects_example :
    length (run_client (λ cert. cert) toy_codecs toy_open toy_ed toy_pq client (turn ∷ (turn ∷ [])))
    ≡ 2
run_client_reconnects_example =
    run_client_reconnects (λ cert. cert) toy_codecs toy_open toy_ed toy_pq client
      (turn ∷ (turn ∷ [])) ((refl, refl, refl, refl), ((refl, refl, refl, refl), tt))

abbrev guarded : ServiceEntry
guarded = record web_entry { allowed_user_cidrs = codes "10." ∷ [] }

abbrev user : User
user = record { remote = codes "10.1:9"; conn = 4 }

abbrev arrivals : List Arrival
arrivals = fails false false ∷ (arrives user ∷ (fails false true ∷ []))

accept_users_iff_example :
    Any (λ e. e ≡ (user, proxied)) (accept_users textual guarded arrivals) ↔ (
      Any (λ v. v ≡ user) (before_end arrivals)
      × IsWelcome textual guarded.allowed_user_cidrs user.remote)
accept_users_iff_example = accept_users_iff textual guarded arrivals user (refl, tt)
