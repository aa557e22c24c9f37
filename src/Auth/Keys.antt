-- ===== src/Auth/Keys.antt =====
-- The texts and files of keys: EncodePubkey, DecodePubkey, WritePrivkeyPEM and LoadPrivkeyPEM of
-- internal/auth/auth.go, and their ML-DSA counterparts of internal/auth/pq.go.
pub mod RoundTrip
use passage.Base.{
  ℕ, ◌==◌, ◌&&◌, Bool, not, List, [], ◌∷◌, ◌++◌, length, drop, has_prefix, same, Bytes, codes,
  Option, none, some, Result, ok, err, if◌then◌else◌, or_err, ◌>>=◌,
}
use passage.Auth.Crypto.{
  AuthError, bad_key_format, Mldsa65, public_key_size, Ed25519, private_key_size, seed_size,
}
use passage.Go.Files.{read_file, write_file, Files}

-- encoding/base64: the encoder of StdEncoding and the decoders of the four encodings.
pub record Base64 : Type 0 where
  pub encode_std : Bytes → Bytes
  pub decode_std : Bytes → Option Bytes
  pub decode_raw_std : Bytes → Option Bytes
  pub decode_url : Bytes → Option Bytes
  pub decode_raw_url : Bytes → Option Bytes

-- encoding/pem: one block, without headers.
pub record Block : Type 0 where
  pub block_type : Bytes
  pub bytes : Bytes

pub record Pem : Type 0 where
  pub encode_to_memory : Block → Bytes
  pub decode : Bytes → Option Block

abbrev pub pubkey_prefix : Bytes
pubkey_prefix = codes "ed25519:"

abbrev pub privkey_pem_type : Bytes
privkey_pem_type = codes "PASSAGE ED25519 PRIVATE KEY"

abbrev pub pq_algorithm_mldsa : Bytes
pq_algorithm_mldsa = codes "mldsa"

abbrev pub pq_pubkey_prefix : Bytes
pq_pubkey_prefix = codes "mldsa:"

abbrev pub pq_privkey_pem_type : Bytes
pq_privkey_pem_type = codes "PASSAGE ML-DSA-65 PRIVATE KEY"

abbrev pub pq_seed_size : ℕ
pq_seed_size = 32

-- strings.TrimPrefix, for a text that has the prefix.
unfoldable pub trim : Bytes → Bytes → Bytes
trim p s = drop (length p) s

-- What the loop keeps of one decoding: the bytes, if there are as many as a key has.
unfoldable pub of_size : ℕ → Option Bytes → Option Bytes
of_size n none = none
of_size n (some raw) = if length raw == n then some raw else none

-- The first decoding that is usable, in the order StdEncoding, RawStdEncoding, URLEncoding, RawURLEncoding.
module _ {K : Type 0} (usable : Option Bytes → Option K) where
  unfoldable pub first_decoding : List (Bytes → Option Bytes) → Bytes → Option K
  first_decoding [] body = none
  first_decoding (dec ∷ rest) body =
      let later = first_decoding rest body in
      elim (usable (dec body)) [ some k ↦ some k | none ↦ later ]

module _ (b64 : Base64) where
  abbrev pub decoders : List (Bytes → Option Bytes)
  decoders = b64.decode_std ∷ b64.decode_raw_std ∷ b64.decode_url ∷ b64.decode_raw_url ∷ []

  unfoldable pub encode_pubkey : Bytes → Bytes
  encode_pubkey pk = pubkey_prefix ++ b64.encode_std pk

  unfoldable pub decode_pubkey : Bytes → Result AuthError Bytes
  unfolding of_size first_decoding trim
  decode_pubkey s =
      if not (has_prefix pubkey_prefix s)
      then err bad_key_format
      else or_err (first_decoding (of_size public_key_size) decoders (trim pubkey_prefix s))
          bad_key_format

  module _ {PublicKey PrivateKey : Type 0} (pq : Mldsa65 PublicKey PrivateKey) where
    -- A decoding of the right length that UnmarshalBinary takes.
    unfoldable pub unmarshal_sized : Option Bytes → Option PublicKey
    unmarshal_sized none = none
    unmarshal_sized (some raw) =
        if length raw == pq.public_key_size then pq.unmarshal_binary raw else none

    unfoldable pub encode_pq_pubkey : PublicKey → Bytes
    encode_pq_pubkey pk = pq_pubkey_prefix ++ b64.encode_std (pq.marshal_binary pk)

    unfoldable pub decode_pq_pubkey : Bytes → Result AuthError PublicKey
    unfolding unmarshal_sized first_decoding trim
    decode_pq_pubkey s =
        if not (has_prefix pq_pubkey_prefix s)
        then err bad_key_format
        else or_err (first_decoding unmarshal_sized decoders (trim pq_pubkey_prefix s))
            bad_key_format

pub data KeyFileError : Type 0 where
  unreadable unwritable malformed bad_private_key_length : KeyFileError

-- The seed in a PEM block of the given type.
unfoldable pub seed_of_block : Bytes → ℕ → Option Block → Result KeyFileError Bytes
seed_of_block t n none = err malformed
seed_of_block t n (some block) =
    if not (same block.block_type t)
    then err malformed
    else if not (length block.bytes == n)
    then err malformed
    else ok block.bytes

-- The argument is the seed that the random generator gave, of 32 bytes.
unfoldable pub generate_pq_keypair :
    {PublicKey PrivateKey : Type 0}
    → Mldsa65 PublicKey PrivateKey
    → Option Bytes
    → Option (PublicKey × PrivateKey × Bytes)
generate_pq_keypair pq none = none
generate_pq_keypair pq (some seed) = let (pk, sk) = pq.new_key_from_seed seed in some (pk, sk, seed)

module _ (pem : Pem) where
  module _ (ed : Ed25519) where
    unfoldable pub write_privkey_pem : Files → Bytes → Bytes → Result KeyFileError Files
    unfolding write_file
    write_privkey_pem f path priv =
        if not (length priv == private_key_size)
        then err bad_private_key_length
        else or_err
            (write_file f path (
              pem.encode_to_memory
                (record { block_type = privkey_pem_type; bytes = ed.seed priv })))
            unwritable

    unfoldable pub load_privkey_pem : Files → Bytes → Result KeyFileError Bytes
    unfolding read_file seed_of_block
    load_privkey_pem f path = do
      content ← or_err (read_file f path) unreadable
      seed ← seed_of_block privkey_pem_type seed_size (pem.decode content)
      ok (ed.new_key_from_seed seed)

  module _ {PublicKey PrivateKey : Type 0} (pq : Mldsa65 PublicKey PrivateKey) where
    unfoldable pub write_pq_privkey_pem : Files → Bytes → Bytes → Result KeyFileError Files
    unfolding write_file
    write_pq_privkey_pem f path seed =
        if not (length seed == pq_seed_size)
        then err bad_private_key_length
        else or_err
            (write_file f path
              (pem.encode_to_memory (record { block_type = pq_privkey_pem_type; bytes = seed })))
            unwritable

    unfoldable pub load_pq_privkey_pem :
        Files → Bytes → Result KeyFileError (PublicKey × PrivateKey)
    unfolding read_file seed_of_block
    load_pq_privkey_pem f path = do
      content ← or_err (read_file f path) unreadable
      seed ← seed_of_block pq_privkey_pem_type pq_seed_size (pem.decode content)
      ok (pq.new_key_from_seed seed)
