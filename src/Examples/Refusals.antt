-- ===== src/Examples/Refusals.antt =====
-- A client whose claim names a service that it may not have.
use passage.Base.{Bytes, codes, ◌≡◌, err, ◌∷◌, some, ℕ, [], ◌++◌, arith, lookup, refl, same}
use passage.Examples.Toy.{toy_ed, toy_pq, toy_codecs}
use passage.Examples.Handshakes.{
  web, tables, noon, nonce_bytes, exporter_bytes, attempt, bodies, encoded,
}
use passage.Auth.Verify.{verify, verify_any, pq_verify, pq_verify_any, sign}
use passage.Go.Io.{Conn}
use passage.Proto.Messages.{ClientAuth}
use passage.Tunnel.Handshake.{server_handshake, rejected, client_auth}
use passage.Tunnel.Server.{Tables, validate_auth, check_services, service_not_allowed}
use passage.Proto.Framing.{frame}
use passage.Tunnel.Handshake.Agreement.{auth_of}
use passage.Base.Int.{pos, wrap64, ◌+ℤ◌, ◌-ℤ◌, ◌*ℤ◌}
use passage.Tunnel.Handshake.Rejection.{server_handshake-rejection}
use passage.Auth.Skew.{check_clock_skew, magnitude}
use passage.Go.Time.{time_sub, unix, distance, saturate}
use passage.Auth.SigningInput.{signing_input}
use passage.Go.Endian.{put_uint64}

abbrev strict_tables : Tables ℕ
strict_tables = record tables { allowed = [] }

abbrev claim : ClientAuth
claim = auth_of toy_codecs toy_ed toy_pq attempt

refused :
    validate_auth toy_ed toy_pq strict_tables noon nonce_bytes exporter_bytes claim
    ≡ err (service_not_allowed web)
unfolding validate_auth check_services verify verify_any pq_verify pq_verify_any lookup same
    client_auth sign check_clock_skew time_sub unix distance saturate wrap64 ◌+ℤ◌ ◌-ℤ◌ ◌*ℤ◌
    magnitude signing_input put_uint64
refused = refl

abbrev failure : Bytes
failure = 1 ∷ codes "authentication failed"

abbrev server_end : Conn
server_end = record { incoming = frame bodies.auth ++ []; outgoing = []; writes_left = 4 }

server_handshake-rejection_example :
    server_handshake toy_codecs toy_ed toy_pq strict_tables exporter_bytes
      (some nonce_bytes)
      (codes "s1")
      (pos 1000)
      noon
      server_end
    ≡ (
      err (rejected (service_not_allowed web)),
      record { incoming = []; outgoing = frame bodies.hello ++ frame failure; writes_left = 0 },
    )
server_handshake-rejection_example =
    server_handshake-rejection toy_codecs toy_ed toy_pq strict_tables exporter_bytes nonce_bytes
      (codes "s1") (pos 1000) noon claim (service_not_allowed web) bodies.hello bodies.auth failure
      [] server_end 0 encoded.hello encoded.auth refl (omega arith) refused refl refl
