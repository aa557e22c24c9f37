-- ===== src/Examples/KeyFiles.antt =====
-- Encodings of keys and files that leave the bytes as they are.
use passage.Base.{
  Bytes, ◌≡◌, Option, ◌++◌, [], length, none, some, ◌∷◌, refl, take, true, drop, take-append_length,
  drop-append_length,
}
use passage.Examples.Handshakes.{key}
use passage.Auth.Keys.{Base64, Block, Pem}
use passage.Go.Files.{Files}

abbrev pub plain_base64 : Base64
plain_base64 = record {
  encode_std = λ b. b;
  decode_std = λ b. some b;
  decode_raw_std = λ b. none;
  decode_url = λ b. none;
  decode_raw_url = λ b. none;
}

abbrev encode_block : Block → Bytes
encode_block b = length b.block_type ∷ (b.block_type ++ b.bytes)

abbrev decode_block : Bytes → Option Block
decode_block [] = none
decode_block (n ∷ rest) = some (record { block_type = take n rest; bytes = drop n rest })

abbrev pub plain_pem : Pem
plain_pem = record { encode_to_memory = encode_block; decode = decode_block }

pub plain_pem-round_trip : (b : Block) → decode_block (encode_block b) ≡ some b
plain_pem-round_trip b =
    rw (take-append_length b.block_type b.bytes) (rw (drop-append_length b.block_type b.bytes) refl)

abbrev pub files : Files
files = record { contents = []; writable = λ path. true }

abbrev pub private_key : Bytes
private_key = key ++ key
