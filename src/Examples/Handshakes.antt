-- ===== src/Examples/Handshakes.antt =====
-- One client, registered with its two keys, and one attempt to connect.
use passage.Base.{
  Bytes, codes, arith, lookup, replicate, ℕ, [], refl, same, same_refl, All, ◌∷◌, inl, some, ◌+◌,
  ◌++◌, ◌≡◌, ok, ◌↔◌,
}
use passage.Examples.Toy.{toy_ed, toy_pq, toy_codecs, put_int, encode_auth, toy_sign, checksum}
use passage.Tunnel.Server.Authentic.{IsAuthentic, validate_auth_iff, IsListed}
use passage.Tunnel.Handshake.Agreement.{
  Attempt, Bodies, IsHonest, IsEncoded, handshake_agrees, auth_of,
}
use passage.Tunnel.Handshake.Safety.{server_handshake-IsAuthentic}
use passage.Auth.SigningInput.{pq_signing_input, signing_input}
use passage.Auth.Skew.{check_clock_skew, magnitude}
use passage.Config.Types.{ServiceEntry}
use passage.Go.Time.{Time, time_sub, unix, unix_to_internal, distance, saturate}
use passage.Tunnel.Handshake.Honest.{IsKeyPair, IsPqSignature, IsRegistered}
use passage.Tunnel.Server.{Tables, or_nil, validate_auth}
use passage.Base.Int.{pos, wrap64, ◌+ℤ◌, ◌-ℤ◌, ◌*ℤ◌, to_uint64}
use passage.Proto.Messages.{pq_auth_label, ClientAuth}
use passage.Go.Io.{Conn}
use passage.Tunnel.Handshake.{client_auth, server_handshake, Admitted, client_handshake}
use passage.Auth.Verify.{sign}
use passage.Proto.Framing.{frame, write_message, read_message}
use passage.Go.Endian.{put_uint64}

abbrev pub key : Bytes
key = replicate 32 1

abbrev pub alice : Bytes
alice = codes "alice"

abbrev pub web : Bytes
web = codes "web"

abbrev pub web_entry : ServiceEntry
web_entry = record { name = web; listen = codes ":80"; allowed_user_cidrs = [] }

abbrev pub tables : Tables ℕ
tables = record {
  clients_by_id = [];
  client_pubs = (alice, key ∷ []) ∷ [];
  client_pq_pubs = (alice, some 5 ∷ []) ∷ [];
  allowed = (alice, (web, web_entry) ∷ []) ∷ [];
}

abbrev pub noon : Time
noon = record { sec = pos (unix_to_internal + 1000); nsec = 0 }

abbrev pub nonce_bytes : Bytes
nonce_bytes = replicate 32 2

abbrev pub exporter_bytes : Bytes
exporter_bytes = replicate 32 3

abbrev pub pq_message : Bytes
pq_message = pq_signing_input nonce_bytes exporter_bytes alice (pos 990) (web ∷ [])

abbrev pub attempt : Attempt ℕ
attempt = record {
  nonce = nonce_bytes;
  exporter = exporter_bytes;
  sid = codes "s1";
  hello_time = pos 1000;
  now = noon;
  priv = key;
  pq_priv = 5;
  id = alice;
  client_time = pos 990;
  requested = web ∷ [];
  pq_sig = 5 ∷ checksum (pq_message ++ pq_auth_label) ∷ [];
}

abbrev pub bodies : Bodies
bodies = record {
  hello = put_int (pos 1000) nonce_bytes;
  auth = encode_auth (auth_of toy_codecs toy_ed toy_pq attempt);
  accepted = 0 ∷ codes "s1";
}

pub key_pair : IsKeyPair toy_ed key key
key_pair = record {
  pk_size = refl;
  sig_size = λ msg. refl;
  verifies = λ msg. same_refl (toy_sign key msg);
}

pub pq_signature : IsPqSignature toy_pq 5 5 pq_message pq_auth_label attempt.pq_sig
pq_signature = record { signs = refl; size = refl; verifies = same_refl attempt.pq_sig }

pub registered : IsRegistered tables alice key 5
unfolding lookup same
registered = record { known = λ e. cc; listed = inl refl; pq_listed = inl refl }

pub in_time : check_clock_skew noon (pos 990) ≡ ok tt
unfolding check_clock_skew time_sub unix distance saturate wrap64 ◌+ℤ◌ ◌-ℤ◌ ◌*ℤ◌ magnitude
in_time = refl

pub permitted : All (IsListed (or_nil (lookup alice tables.allowed))) (web ∷ [])
unfolding lookup same
permitted = ((λ e. cc), tt)

pub honest : IsHonest toy_codecs toy_ed toy_pq tables attempt key 5
honest = record {
  key_pair = key_pair;
  pq_signature = pq_signature;
  pq_size = omega arith;
  registered = registered;
  in_time = in_time;
  requests = λ e. cc;
  permitted = permitted;
}

pub encoded : IsEncoded toy_codecs toy_ed toy_pq attempt bodies
unfolding client_auth sign signing_input put_uint64 to_uint64 pq_signing_input
encoded = record {
  hello = record { encoded = refl; decoded = refl; fits = omega arith };
  auth = record { encoded = refl; decoded = refl; fits = omega arith };
  accepted = record { encoded = refl; decoded = refl; fits = omega arith };
}

abbrev server_end : Conn
server_end = record { incoming = frame bodies.auth ++ codes "rest"; outgoing = []; writes_left = 4 }

abbrev pub client_end : Conn
client_end = record {
  incoming = frame bodies.hello ++ (frame bodies.accepted ++ []);
  outgoing = [];
  writes_left = 2;
}

handshake_agrees_example :
    (server_handshake toy_codecs toy_ed toy_pq tables exporter_bytes
        (some nonce_bytes)
        (codes "s1")
        (pos 1000)
        noon
        server_end
      ≡ (
        ok (alice, codes "s1", web ∷ []),
        record {
          incoming = codes "rest";
          outgoing = frame bodies.hello ++ frame bodies.accepted;
          writes_left = 0;
        },
      ))
    × (client_handshake toy_codecs toy_ed toy_pq key 5 alice
          (web ∷ [])
          exporter_bytes
          (pos 990)
          client_end
        ≡ (
          ok (codes "s1"),
          record { incoming = []; outgoing = frame bodies.auth; writes_left = 0 },
        ))
handshake_agrees_example =
    handshake_agrees toy_codecs toy_ed toy_pq tables attempt key 5 bodies server_end client_end
      (codes "rest") [] 0 0 honest encoded (λ e. cc) refl refl refl refl

server_handshake-IsAuthentic_example :
    (n : Bytes) × (ca : ClientAuth) × (sent read : Conn) × (some nonce_bytes ≡ some n)
    × (write_message toy_codecs.hello (record { nonce = n; server_time = pos 1000 }) server_end
        ≡ (ok tt, sent))
    × (read_message toy_codecs.client_auth sent ≡ (ok ca, read))
    × IsAuthentic toy_ed toy_pq tables noon n exporter_bytes ca
    × ◌≡◌ {A = Admitted}
        (alice, codes "s1", web ∷ [])
        (ca.client_id, codes "s1", ca.requested_services)
server_handshake-IsAuthentic_example =
    server_handshake-IsAuthentic toy_codecs toy_ed toy_pq tables exporter_bytes (some nonce_bytes)
      (codes "s1") (pos 1000) noon server_end _ _ handshake_agrees_example.0

validate_auth_iff_example :
    (validate_auth toy_ed toy_pq tables noon nonce_bytes exporter_bytes
        (auth_of toy_codecs toy_ed toy_pq attempt)
      ≡ ok tt)
    ↔ IsAuthentic toy_ed toy_pq tables noon nonce_bytes exporter_bytes
        (auth_of toy_codecs toy_ed toy_pq attempt)
validate_auth_iff_example =
    validate_auth_iff toy_ed toy_pq tables noon nonce_bytes exporter_bytes
      (auth_of toy_codecs toy_ed toy_pq attempt)
