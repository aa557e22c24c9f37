-- ===== src/Cmd/Keygen.antt =====
-- What the subcommand keygen leaves behind.
use passage.Base.{
  Bytes, length, some, ok, err, Result-cases, lookup-insert, same_iff, same_refl, ◌≡◌, ◌≢◌, arith,
  inl, same, inr,
}
use passage.Auth.Crypto.{Ed25519, Mldsa65, seed_size}
use passage.Auth.Keys.{
  Pem, Block, Base64, malformed, load_privkey_pem, load_pq_privkey_pem, write_privkey_pem,
  write_pq_privkey_pem, pq_privkey_pem_type, generate_pq_keypair, seed_of_block,
}
use passage.Auth.Keys.RoundTrip.{
  load_privkey_pem-write_privkey_pem, load_pq_privkey_pem-write_pq_privkey_pem,
}
use passage.Go.Files.{Files, read_file, write_file}
use passage.Cmd.{Shell, KeygenFlags, run_keygen, store_pq_keypair, print}

module _ (pem : Pem) (b64 : Base64) {PublicKey PrivateKey : Type 0}
    (pq : Mldsa65 PublicKey PrivateKey) where
  -- Writing the ML-DSA key leaves the other files.
  read_file-write_pq_privkey_pem :
      (f g : Files) (path other seed : Bytes)
      → write_pq_privkey_pem pem pq f path seed ≡ ok g
      → path ≢ other
      → read_file g other ≡ read_file f other
  unfolding write_pq_privkey_pem write_file read_file
  read_file-write_pq_privkey_pem f g path other seed w ne = ground (
    arith,
    lookup-insert path other
        (pem.encode_to_memory (record { block_type = pq_privkey_pem_type; bytes = seed }))
        f.contents,
    same_iff path other,
  )

  -- The two files that keygen wrote if it succeeds, in order.
  run_keygen-eq-ok :
      (ed : Ed25519) (flags : KeygenFlags) (pair : Bytes × Bytes) (seed : Bytes) (s s' : Shell)
      → run_keygen pem b64 pq ed (some flags) (some pair) (some seed) s ≡ (ok tt, s')
      → (f : Files) × (write_privkey_pem pem ed s.files flags.out pair.1 ≡ ok f)
        × (write_pq_privkey_pem pem pq f flags.pq_out seed ≡ ok s'.files)
  unfolding run_keygen store_pq_keypair generate_pq_keypair print
  run_keygen-eq-ok ed flags pair seed s s' e =
      elim (Result-cases (write_privkey_pem pem ed s.files flags.out pair.1)) [
        | inl (f, w) ↦ elim (Result-cases (write_pq_privkey_pem pem pq f flags.pq_out seed)) [
          | inl (g, w_pq) ↦ (f, w, ground arith)
          | inr (_, refused) ↦ absurd (ground arith)
        ]
        | inr (_, refused) ↦ absurd (ground arith)
      ]

  module _ (decode-encode : (b : Block) → pem.decode (pem.encode_to_memory b) ≡ some b) where
    -- After keygen has succeeded with two different paths, the client loads from them the private keys that were drawn, if
    -- PEM decodes what it encodes and the seed of the drawn Ed25519 private key has its size and gives the key.
    pub run_keygen-load_privkey_pem :
        (ed : Ed25519) (flags : KeygenFlags) (pair : Bytes × Bytes) (seed : Bytes) (s s' : Shell)
        → flags.pq_out ≢ flags.out
        → length (ed.seed pair.1) ≡ seed_size
        → ed.new_key_from_seed (ed.seed pair.1) ≡ pair.1
        → run_keygen pem b64 pq ed (some flags) (some pair) (some seed) s ≡ (ok tt, s')
        → (load_privkey_pem pem ed s'.files flags.out ≡ ok pair.1)
          × (load_pq_privkey_pem pem pq s'.files flags.pq_out ≡ ok (pq.new_key_from_seed seed))
    unfolding load_privkey_pem
    run_keygen-load_privkey_pem ed flags pair seed s s' ne size key_of_seed e =
        let (f, w, w_pq) = run_keygen-eq-ok ed flags pair seed s s' e in
        (
          ground (
            arith,
            load_privkey_pem-write_privkey_pem pem decode-encode ed s.files f flags.out pair.1 size
                key_of_seed w,
            read_file-write_pq_privkey_pem f s'.files flags.pq_out flags.out seed w_pq ne,
          ),
          load_pq_privkey_pem-write_pq_privkey_pem pem decode-encode pq f s'.files flags.pq_out seed
              w_pq,
        )

    -- After keygen has succeeded with one path for both keys, no Ed25519 private key can be loaded from it, if PEM decodes
    -- what it encodes.
    pub run_keygen-malformed :
        (ed : Ed25519) (path : Bytes) (pair : Bytes × Bytes) (seed : Bytes) (s s' : Shell)
        → run_keygen pem b64 pq ed
            (some (record { out = path; pq_out = path }))
            (some pair)
            (some seed)
            s
          ≡ (ok tt, s')
        → load_privkey_pem pem ed s'.files path ≡ err malformed
    unfolding load_privkey_pem write_pq_privkey_pem write_file read_file seed_of_block same
    run_keygen-malformed ed path pair seed s s' e =
        let (f, w, w_pq) =
          run_keygen-eq-ok ed (record { out = path; pq_out = path }) pair seed s s' e in
        ground (
          arith,
          decode-encode (record { block_type = pq_privkey_pem_type; bytes = seed }),
          lookup-insert path path
              (pem.encode_to_memory (record { block_type = pq_privkey_pem_type; bytes = seed }))
              f.contents,
          same_refl path,
        )
