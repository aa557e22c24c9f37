-- ===== src/Examples/Settings.antt =====
-- The settings of TLS and yamux of one connection.
use passage.Base.{◌∷◌, [], Bytes, arith, Option, inl, some, ◌≡◌, ◌≤◌, codes, ok, refl, ◌↔◌}
use passage.Examples.Clients.{yamux_defaults, digest}
use passage.Mux.{to_yamux_config}
use passage.Mux.Intervals.{IsSound, to_yamux_config-IsSound}
use passage.Tunnel.Tls.{
  Certificate, ConnectionState, server_settings, client_settings, client_tls_config,
  server_tls_config, version_tls13, format_fingerprint,
}
use passage.Tunnel.Tls.Settled.{IsNegotiated, settled_iff}
use passage.Base.Int.{pos}
use passage.Go.Files.{Files}
use passage.Examples.KeyFiles.{files}
use passage.Tunnel.Tls.Pinning.{parse_fingerprint-format_fingerprint, IsPinned}

to_yamux_config-IsSound_example :
    IsSound
      (to_yamux_config yamux_defaults (record { heartbeat_interval = pos 0; idle_timeout = pos 5 }))
    × ((to_yamux_config yamux_defaults
          (record { heartbeat_interval = pos 0; idle_timeout = pos 5 })).rest
        ≡ 256)
to_yamux_config-IsSound_example =
    to_yamux_config-IsSound yamux_defaults
      (record { heartbeat_interval = pos 0; idle_timeout = pos 5 }) (omega arith) (omega arith)

abbrev pub certificate : Certificate
certificate = record { chain = digest ∷ [] }

abbrev pub state_seen : ConnectionState
state_seen = record { peer_certificates = digest ∷ []; curve_id = 4588 }

abbrev pub server_state : ConnectionState
server_state = record { peer_certificates = []; curve_id = 4588 }

pub negotiated :
    IsNegotiated
      (server_settings certificate)
      (client_settings (λ cert. cert) digest)
      772
      server_state
      state_seen
negotiated = record {
  server_version = omega arith;
  client_version = omega arith;
  same_curve = refl;
  server_curve = inl refl;
  client_curve = inl refl;
  shown = inl refl;
}

abbrev load_pair : Files → Bytes → Bytes → Option Certificate
load_pair f cert_file key_file = some certificate

server_tls :
    server_tls_config load_pair files (codes "c") (codes "k") ≡ ok (server_settings certificate)
unfolding server_tls_config
server_tls = refl

client_tls_ok :
    client_tls_config (λ cert. cert) (format_fingerprint digest)
    ≡ ok (client_settings (λ cert. cert) digest)
unfolding client_tls_config
client_tls_ok = rw (parse_fingerprint-format_fingerprint digest refl (ground arith)) refl

settled_iff_example :
    (version_tls13 ≤ 772)
    × ((server_settings certificate).verify server_state ≡ ok tt)
    × (((client_settings (λ cert. cert) digest).verify state_seen ≡ ok tt)
        ↔ IsPinned (λ cert. cert) digest certificate.chain)
settled_iff_example =
    settled_iff (λ cert. cert) load_pair files (codes "c") (codes "k") digest certificate
      (server_settings certificate) (client_settings (λ cert. cert) digest) 772 server_state
      state_seen refl refl (ground arith) server_tls client_tls_ok negotiated
