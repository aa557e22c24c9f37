-- ===== src/Auth/Keys/RoundTrip.antt =====
-- A key that the program wrote or printed is the key that it reads back.
use passage.Base.{
  ◌≡◌, ◌++◌, length, Bytes, some, ok, arith, has_prefix-append, drop-append_length, same_refl,
  lookup-insert,
}
use passage.Auth.Crypto.{Ed25519, Mldsa65, seed_size, public_key_size}
use passage.Auth.Keys.{
  Base64, Pem, Block, decode_pubkey, encode_pubkey, trim, encode_pq_pubkey, decode_pq_pubkey,
  write_privkey_pem, load_privkey_pem, write_pq_privkey_pem, load_pq_privkey_pem,
  pq_privkey_pem_type, privkey_pem_type,
}
use passage.Go.Files.{Files}

trim-append : (p s : Bytes) → trim p (p ++ s) ≡ s
unfolding trim
trim-append p s = drop-append_length p s

module _ (b64 : Base64)
    (decode-encode : (b : Bytes) → b64.decode_std (b64.encode_std b) ≡ some b) where
  -- A printed Ed25519 key is read back, if base64 decodes what it encodes.
  pub decode_pubkey-encode_pubkey :
      (pk : Bytes) → length pk ≡ public_key_size → decode_pubkey b64 (encode_pubkey b64 pk) ≡ ok pk
  unfolding decode_pubkey encode_pubkey
  decode_pubkey-encode_pubkey pk h =
      rw (has_prefix-append, trim-append) (ground (arith, decode-encode pk))

  pub decode_pq_pubkey-encode_pq_pubkey :
      {PublicKey PrivateKey : Type 0} (pq : Mldsa65 PublicKey PrivateKey) (pk : PublicKey)
      → length (pq.marshal_binary pk) ≡ pq.public_key_size
      → pq.unmarshal_binary (pq.marshal_binary pk) ≡ some pk
      → decode_pq_pubkey b64 pq (encode_pq_pubkey b64 pq pk) ≡ ok pk
  unfolding decode_pq_pubkey encode_pq_pubkey
  decode_pq_pubkey-encode_pq_pubkey pq pk h u =
      rw (has_prefix-append, trim-append) (ground (arith, decode-encode (pq.marshal_binary pk)))

module _ (pem : Pem)
    (decode-encode : (b : Block) → pem.decode (pem.encode_to_memory b) ≡ some b) where
  -- If WritePrivkeyPEM has written a private key whose 32-byte seed gives the key back, LoadPrivkeyPEM returns it from
  -- the new file, if PEM decodes what it encodes.
  pub load_privkey_pem-write_privkey_pem :
      (ed : Ed25519) (f g : Files) (path priv : Bytes)
      → length (ed.seed priv) ≡ seed_size
      → ed.new_key_from_seed (ed.seed priv) ≡ priv
      → write_privkey_pem pem ed f path priv ≡ ok g
      → load_privkey_pem pem ed g path ≡ ok priv
  unfolding write_privkey_pem load_privkey_pem
  load_privkey_pem-write_privkey_pem ed f g path priv l s w = ground (
    arith,
    decode-encode (record { block_type = privkey_pem_type; bytes = ed.seed priv }),
    same_refl privkey_pem_type,
    lookup-insert path path
        (pem.encode_to_memory (record { block_type = privkey_pem_type; bytes = ed.seed priv }))
        f.contents,
    same_refl path,
  )

  pub load_pq_privkey_pem-write_pq_privkey_pem :
      {PublicKey PrivateKey : Type 0} (pq : Mldsa65 PublicKey PrivateKey) (f g : Files)
      (path seed : Bytes)
      → write_pq_privkey_pem pem pq f path seed ≡ ok g
      → load_pq_privkey_pem pem pq g path ≡ ok (pq.new_key_from_seed seed)
  unfolding write_pq_privkey_pem load_pq_privkey_pem
  load_pq_privkey_pem-write_pq_privkey_pem pq f g path seed w = ground (
    arith,
    decode-encode (record { block_type = pq_privkey_pem_type; bytes = seed }),
    same_refl pq_privkey_pem_type,
    lookup-insert path path
        (pem.encode_to_memory (record { block_type = pq_privkey_pem_type; bytes = seed }))
        f.contents,
    same_refl path,
  )
