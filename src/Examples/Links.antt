-- ===== src/Examples/Links.antt =====
-- One connection of the client to the server that gets its session.
use passage.Examples.Clients.{yamux_defaults, client, first_attempt, keying, exported}
use passage.Examples.Settings.{certificate, state_seen, server_state, negotiated}
use passage.Examples.Sessions.{state}
use passage.Config.Client.{service_names}
use passage.Go.Hex.{encode_to_string, hex_digit}
use passage.Examples.Handshakes.{
  encoded, key_pair, pq_signature, registered, in_time, permitted, key, alice, web, web_entry,
  tables, noon, nonce_bytes, exporter_bytes, attempt, bodies,
}
use passage.Base.{
  ◌∷◌, [], Bytes, arith, ℕ, replicate, some, true, ◌++◌, ◌≡◌, ok, refl, List, false, lookup, same,
  Bool,
}
use passage.Examples.Toy.{toy_ed, toy_pq, toy_codecs, toy_open}
use passage.Tunnel.Handshake.Agreement.{IsHonest, IsEncoded, Bodies}
use passage.Tunnel.Control.{Incoming, Shared, new_session_id, handle_control, admit}
use passage.Tunnel.Control.Established.{IsLink, established, attempt_of}
use passage.Tunnel.Tls.{server_settings}
use passage.Base.Int.{pos}
use passage.Proto.Framing.{frame}
use passage.Config.Types.{LimitsConfig}
use passage.Tunnel.Sessions.{Listener}
use passage.Tunnel.Sessions.Replacement.{wanted, opened}
use passage.Tunnel.Client.{connect_and_serve, dialled}
use passage.Tunnel.Client

abbrev sid : Bytes
sid = new_session_id (λ n. replicate n 7)

abbrev session_bodies : Bodies
session_bodies = record bodies { accepted = 0 ∷ sid }

abbrev pub incoming : Incoming ℕ
incoming = record {
  is_tls = true;
  tls = some server_state;
  exporter = exported;
  conn = record { incoming = frame session_bodies.auth ++ []; outgoing = []; writes_left = 4 };
  nonce_bytes = λ n. some (replicate n 2);
  sid_bytes = λ n. replicate n 7;
  hello_time = pos 1000;
  now = noon;
  yamux_server = λ y. some tt;
}

abbrev pub dialling : Client.Attempt ℕ
dialling = record first_attempt {
  conn = record {
    incoming = frame session_bodies.hello ++ (frame session_bodies.accepted ++ []);
    outgoing = [];
    writes_left = 2;
  };
}

session-IsHonest :
    IsHonest toy_codecs toy_ed toy_pq tables
      (attempt_of
        (λ cert. cert)
        toy_codecs
        toy_open
        toy_ed
        toy_pq
        yamux_defaults
        client
        dialling
        incoming
        exporter_bytes
        nonce_bytes
        attempt.pq_sig)
      key
      5
unfolding service_names
session-IsHonest = record {
  key_pair = key_pair;
  pq_signature = pq_signature;
  pq_size = omega arith;
  registered = registered;
  in_time = in_time;
  requests = λ e. cc;
  permitted = permitted;
}

session-IsEncoded :
    IsEncoded toy_codecs toy_ed toy_pq
      (attempt_of
        (λ cert. cert)
        toy_codecs
        toy_open
        toy_ed
        toy_pq
        yamux_defaults
        client
        dialling
        incoming
        exporter_bytes
        nonce_bytes
        attempt.pq_sig)
      session_bodies
unfolding service_names new_session_id encode_to_string hex_digit
session-IsEncoded = record {
  hello = encoded.hello;
  auth = encoded.auth;
  accepted = record { encoded = refl; decoded = refl; fits = omega arith };
}

pub link :
    IsLink
      (λ cert. cert)
      toy_codecs
      toy_open
      toy_ed
      toy_pq
      yamux_defaults
      certificate
      tables
      client
      dialling
      incoming
      key
      5
unfolding same
link = record {
  dialled = refl;
  over_tls = refl;
  version = 772;
  at_server = server_state;
  at_client = state_seen;
  seen_by_server = refl;
  seen_by_client = refl;
  negotiated = negotiated;
  keying_material = keying;
  server_exports = λ l c n. refl;
  client_exports = λ l c n. refl;
  nonce = nonce_bytes;
  drawn = refl;
  filled = refl;
  pq_sig = attempt.pq_sig;
  bodies = session_bodies;
  honest = session-IsHonest;
  encoded = session-IsEncoded;
  to_server = [];
  to_client = [];
  server_reads = refl;
  client_reads = refl;
  server_spare = 0;
  client_spare = 0;
  server_writes = refl;
  client_writes = refl;
  keep_alive = omega arith;
  write_timeout = omega arith;
  server_multiplexes = λ y sound. refl;
  same_yamux = refl;
  client_multiplexes = λ y sound. refl;
}

abbrev pub limits : LimitsConfig
limits = record {
  max_streams_per_client = pos 64;
  handshake_timeout = pos 10;
  idle_timeout = pos 30;
  heartbeat_interval = pos 10;
}

abbrev pub shared : Shared
shared = record {
  control = record { handshake_sem = record { capacity = 64; sent = 1 }; conn_open = true };
  sessions = state;
}

abbrev pub always_free : List Listener → Bytes → Bool
always_free ls a = true

abbrev after : Shared
after =
    handle_control toy_codecs toy_ed toy_pq yamux_defaults always_free (server_settings certificate)
      limits tables 2 incoming shared

established_example :
    (admit toy_codecs toy_ed toy_pq yamux_defaults
        (server_settings certificate)
        limits
        tables
        incoming
      ≡ ok (alice, sid, service_names client.cfg.services))
    × ((connect_and_serve (λ cert. cert) toy_codecs toy_open toy_ed toy_pq client dialling).served
        ≡ some (
            dialled
              (λ cert. cert)
              toy_codecs
              toy_open
              toy_ed
              toy_pq
              client.cfg.services
              dialling.streams))
    × (lookup alice after.sessions.sessions ≡ some 2)
    × (after.sessions.store 2 ≡ record {
      id = sid;
      client_id = alice;
      cancelled = false;
      yam_closed = false;
      stream_sem = record { capacity = 64; sent = 0 };
      listeners = opened (wanted ((web, web_entry) ∷ []) (service_names client.cfg.services));
    })
unfolding lookup same service_names wanted
established_example =
    established (λ cert. cert) toy_codecs toy_open toy_ed toy_pq yamux_defaults always_free limits
      certificate tables client dialling incoming key 5 2 shared link refl (λ e. ground arith)
      (refl, tt)
