-- ===== src/Examples/Toy.antt =====
-- Simple stand-ins for the libraries that the development takes as parameters.
use passage.Base.{
  Bytes, List, length, some, ℕ, ◌++◌, ◌∷◌, [], if◌then◌else◌, replicate, take, ◌+◌, drop, none,
  same, suc, ◌*◌, ◌==◌, zero,
}
use passage.Base.Int.{ℤ, pos, negsuc}
use passage.Auth.Crypto.{Ed25519, Mldsa65}
use passage.Proto.Messages.{ClientAuth, Open}
use passage.Proto.Framing.{Json}
use passage.Tunnel.Handshake.{Codecs}

abbrev pub checksum : Bytes → ℕ
checksum [] = 0
checksum (x ∷ xs) = x + 3 * checksum xs

-- A signature of 64 bytes: a checksum of the key and the message.
abbrev pub toy_sign : Bytes → Bytes → Bytes
toy_sign priv msg = checksum (priv ++ msg) ∷ replicate 63 0

abbrev pub toy_ed : Ed25519
toy_ed = record {
  new_key_from_seed = λ seed. seed ++ seed;
  seed = λ priv. take 32 priv;
  sign = toy_sign;
  verify = λ pk msg sig. same sig (toy_sign pk msg);
}

abbrev pub toy_pq : Mldsa65 ℕ ℕ
toy_pq = record {
  signature_size = 2;
  public_key_size = 1;
  new_key_from_seed = λ seed. (checksum seed, checksum seed);
  unmarshal_binary = λ raw. elim raw [ [] ↦ none | x ∷ _ ↦ some x ];
  marshal_binary = λ pk. pk ∷ [];
  sign_to = λ sk msg ctx. some (sk ∷ checksum (msg ++ ctx) ∷ []);
  verify = λ pk msg ctx sig. same sig (pk ∷ checksum (msg ++ ctx) ∷ []);
}

-- Encodings of values, each in front of more.
abbrev pub put_field : Bytes → Bytes → Bytes
put_field s rest = length s ∷ (s ++ rest)

abbrev pub get_field : Bytes → Bytes × Bytes
get_field [] = ([], [])
get_field (n ∷ rest) = (take n rest, drop n rest)

abbrev pub put_int : ℤ → Bytes → Bytes
put_int (pos n) rest = 0 ∷ n ∷ rest
put_int (negsuc n) rest = 1 ∷ n ∷ rest

abbrev pub get_int : Bytes → ℤ × Bytes
get_int (s ∷ n ∷ rest) = (if s == 0 then pos n else negsuc n, rest)
get_int _ = (pos 0, [])

abbrev pub put_fields : List Bytes → Bytes
put_fields [] = []
put_fields (s ∷ ss) = put_field s (put_fields ss)

abbrev pub get_fields : ℕ → Bytes → List Bytes
get_fields zero b = []
get_fields (suc n) b = let (s, rest) = get_field b in s ∷ get_fields n rest

abbrev pub decode_auth : Bytes → ClientAuth
decode_auth b =
    let (id, b) = get_field b in
    let (t, b) = get_int b in
    let (sig, b) = get_field b in
    let (alg, b) = get_field b in
    let (pq_sig, b) = get_field b in
    record {
      client_id = id;
      client_time = t;
      signature = sig;
      requested_services = elim b [ [] ↦ [] | n ∷ rest ↦ get_fields n rest ];
      pq_algorithm = alg;
      pq_signature = pq_sig;
    }

abbrev pub encode_auth : ClientAuth → Bytes
encode_auth ca = put_field ca.client_id (
    put_int ca.client_time (
      put_field ca.signature (
        put_field ca.pq_algorithm (
          put_field ca.pq_signature
            (length ca.requested_services ∷ put_fields ca.requested_services)))))

abbrev pub toy_codecs : Codecs
toy_codecs = record {
  hello = record {
    marshal = λ h. some (put_int h.server_time h.nonce);
    unmarshal = λ b. let (t, n) = get_int b in some (record { nonce = n; server_time = t });
  };
  client_auth = record {
    marshal = λ ca. some (encode_auth ca);
    unmarshal = λ b. some (decode_auth b);
  };
  accepted = record {
    marshal = λ a. some (0 ∷ a.session_id);
    unmarshal = λ b. elim b [
      | [] ↦ none
      | tag ∷ sid ↦ some (record { session_id = if tag == 0 then sid else [] })
    ];
  };
  auth_failed = record {
    marshal = λ f. some (1 ∷ f.reason);
    unmarshal = λ b. elim b [ [] ↦ none | _ ∷ r ↦ some (record { reason = r }) ];
  };
}

abbrev pub toy_open : Json Open
toy_open = record {
  marshal = λ o. some (o.stream_id ∷ put_field o.message_type o.service_name);
  unmarshal = λ b. elim b [
    | [] ↦ none
    | sid ∷ rest ↦
        let (t, name) = get_field rest in
        some (record { message_type = t; stream_id = sid; service_name = name })
  ];
}
