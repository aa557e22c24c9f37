-- ===== src/QuickDocker/Generate/Succeeds.antt =====
-- When Generate succeeds: with fresh output directories on a disk that refuses nothing, and with keys drawn.
use passage.Go.Path.{clean}
use passage.Base.{
  Bytes, Bool, false, ◌++◌, some, ok, ◌≡◌, refl, codes, length, wrap_err, List, ◌∙◌, or_err, ap, ℕ,
  has_prefix, same, subst, ◌∷◌, arith, [], ◌⊎◌, true, sym,
}
use passage.Auth.Crypto.{Ed25519, Mldsa65, private_key_size}
use passage.Auth.Keys.{Pem, Base64, generate_pq_keypair, pq_seed_size}
use passage.Go.Disk.{
  Disk, M, ◌>>◌, mkdir_all, is_name, join, is_under, Stat, is_absent, is_dir, below-join, below,
}
use passage.QuickDocker.Cert.{X509, TlsKeypair, generate_self_signed_tls, template}
use passage.QuickDocker.Spec.{Spec}
use passage.QuickDocker.Generate.{
  Drawn, GenerateOptions, GenerateResult, generate, generate_configs, generate_client_keys,
  generate_server_keys, ensure_fresh_dir, try_disk, GenerateError, tls_keypair, ed25519_keypair,
  mldsa_keypair,
}
use passage.QuickDocker.Generate.Success.{
  IsAble, IsFresh, Works, Able, Works-bind, Works-then, Works-pure, Works-return,
  ensure_fresh_dir-Works, mkdir_all-Works, chmod-Works, write-Works, write_privkey_pem-Works,
  write_pq_privkey_pem-Works,
}
use passage.QuickDocker.Generate.Written.{server_of, client_of}

-- The generators have given what Generate asks for, in the sizes that they document, and crypto/x509 takes it.
pub record IsDrawn (x509 : X509) (r : Drawn) : Type 0 where
  pub tls_pair : Bytes × Bytes
  pub serial : ℕ
  pub der : Bytes
  pub priv_der : Bytes
  pub pair : Bytes × Bytes
  pub seed : Bytes
  pub drawn_tls : r.tls_key ≡ some tls_pair
  pub drawn_serial : r.serial ≡ some serial
  pub created : x509.create_certificate (template serial r.now) tls_pair.0 tls_pair.1 ≡ some der
  pub marshalled : x509.marshal_pkcs8 tls_pair.1 ≡ some priv_der
  pub drawn_pair : r.client_key ≡ some pair
  pub pair_size : length pair.1 ≡ private_key_size
  pub drawn_seed : r.pq_seed ≡ some seed
  pub seed_length : length seed ≡ pq_seed_size

same-append : (o x y : Bytes) → same (o ++ x) (o ++ y) ≡ same x y
unfolding same
same-append [] x y = refl
same-append (c ∷ o) x y = ground (arith, same-append o x y)

has_prefix-append-append : (o x y : Bytes) → has_prefix (o ++ x) (o ++ y) ≡ has_prefix x y
unfolding has_prefix
has_prefix-append-append [] x y = refl
has_prefix-append-append (c ∷ o) x y = ground (arith, has_prefix-append-append o x y)

-- The client's directory is not below the server's.
client-apart : (out : Bytes) → is_under (server_of out) (client_of out) ≡ false
unfolding is_under join has_prefix same
client-apart out =
    rw
      (
        below-join out (codes "server") refl,
        same-append (below out) (codes "server") (codes "client"),
        has_prefix-append-append (below out) (codes "server/") (codes "client"),
      )
      refl

-- The server's directory is not below the client's.
server-apart : (out : Bytes) → is_under (client_of out) (server_of out) ≡ false
unfolding is_under join has_prefix same
server-apart out =
    rw
      (
        below-join out (codes "client") refl,
        same-append (below out) (codes "client") (codes "server"),
        has_prefix-append-append (below out) (codes "client/") (codes "server"),
      )
      refl

-- The directories of a deployment.
abbrev dirs_of : Bytes → List Bytes
dirs_of out =
    join (client_of out) (codes "keys")
    ∷ (join (server_of out) (codes "keys") ∷ (client_of out ∷ (server_of out ∷ [])))

module _ (pem : Pem) (x509 : X509) (sha256 : Bytes → Bytes) (b64 : Base64) (ed : Ed25519)
    {PublicKey PrivateKey : Type 0} (pq : Mldsa65 PublicKey PrivateKey) where
  generate_self_signed_tls-ok :
      (r : Drawn)
      → IsDrawn x509 r
      → (tls : TlsKeypair) × (generate_self_signed_tls pem x509 sha256 r.tls_key r.serial r.now
          ≡ ok tls)
  unfolding generate_self_signed_tls
  generate_self_signed_tls-ok r h =
      rw (h.drawn_tls, h.drawn_serial) (rw (h.created) (rw (h.marshalled) (_, refl)))

  generate_configs-Works :
      (spec : Spec) (out : Bytes) (tls : TlsKeypair) (pubs : Bytes × Bytes) (d : Disk)
      → Able (dirs_of out) tt d
      → Works
          (Able (dirs_of out))
          (generate_configs pem x509 sha256 b64 ed pq spec (server_of out) (client_of out) tls pubs)
          d
  unfolding generate_configs is_name
  generate_configs-Works spec out tls pubs d able =
      let ps = dirs_of out in
      Works-then ps _ _ _ d (write-Works (server_of out) _ _ ps d refl able.1.1.1.1.0 able)
        (λ d1 able1.
          Works-then ps _ _ _ d1 (write-Works (server_of out) _ _ ps d1 refl able1.1.1.1.1.0 able1)
            (λ d2 able2.
              Works-then ps _ _ _ d2
                (write-Works (client_of out) _ _ ps d2 refl able2.1.1.1.0 able2)
                (λ d3 able3. write-Works (client_of out) _ _ ps d3 refl able3.1.1.1.0 able3)))

  generate_client_keys-Works :
      (out : Bytes) (r : Drawn) (d : Disk)
      → IsDrawn x509 r
      → Able (dirs_of out) tt d
      → Works
          (Able (dirs_of out))
          (generate_client_keys pem x509 sha256 b64 ed pq (client_of out) r)
          d
  unfolding generate_client_keys generate_pq_keypair is_name
  generate_client_keys-Works out r d h able =
      let ps = dirs_of out in
      let keys = join (client_of out) (codes "keys") in
      Works-pure _ _ _ d h.pair (ap (λ o. or_err o ed25519_keypair) h.drawn_pair) (
        Works-then ps _ _ _ d
          (write_privkey_pem-Works pem ed keys _ h.pair.1 ps d h.pair_size refl able.1.0 able)
          (λ d1 able1. Works-then ps _ _ _ d1 (chmod-Works _ ps d1 able1) (λ d2 able2.
            Works-pure _ _ _ d2
              ((pq.new_key_from_seed h.seed).0, (pq.new_key_from_seed h.seed).1, h.seed)
              (ap (λ o. or_err (generate_pq_keypair pq o) mldsa_keypair) h.drawn_seed)
              (Works-then ps _ _ _ d2
                (write_pq_privkey_pem-Works pem pq keys _ h.seed ps d2 h.seed_length refl able2.1.0
                  able2)
                (λ d3 able3.
                  Works-then ps _ _ _ d3 (chmod-Works _ ps d3 able3)
                    (λ d4 able4. Works-return _ _ d4 able4))))))

  -- The two directories, with the key directories in them.
  ensure_dirs-Works :
      (out : Bytes) (force : Bool) (d : Disk)
      → IsAble d
      → IsFresh force d (server_of out)
      → IsFresh force d (client_of out)
      → (A : Type 0) (k : M GenerateError A)
      → ((d' : Disk) → Able (dirs_of out) tt d' → Works (Able (dirs_of out)) k d')
      → Works
          (Able (dirs_of out))
          (ensure_fresh_dir (server_of out) force
            >> (ensure_fresh_dir (client_of out) force
                >> (try_disk (mkdir_all (join (server_of out) (codes "keys")))
                    >> (try_disk (mkdir_all (join (client_of out) (codes "keys"))) >> k))))
          d
  ensure_dirs-Works out force d able server_fresh client_fresh A k next =
      Works-bind _ _ _ _ d (ensure_fresh_dir-Works (server_of out) force d able server_fresh)
        (λ _ d1 fresh1.
          Works-bind _ _ _ _ d1
            (ensure_fresh_dir-Works (client_of out) force d1 fresh1.0.0 (
              subst (λ (s : Stat). (s ≡ is_absent) ⊎ ((s ≡ is_dir) × (force ≡ true)))
                (sym (fresh1.1 (client_of out) (client-apart out)).0) client_fresh))
            (λ _ d2 fresh2.
              let server_there = (fresh2.1 (server_of out) (server-apart out)).1 ∙ fresh1.0.1.0 in
              let both : Able (client_of out ∷ (server_of out ∷ [])) tt d2 =
                (fresh2.0.0, (fresh2.0.1.0, (server_there, tt))) in
              let two = client_of out ∷ (server_of out ∷ []) in
              let three = join (server_of out) (codes "keys") ∷ two in
              Works-then three _ _ _ d2 (mkdir_all-Works _ two d2 both) (λ d3 able3.
                Works-then (dirs_of out) _ _ _ d3 (mkdir_all-Works _ three d3 able3) next)))

  generate_server_keys-Works :
      (out : Bytes) (force : Bool) (r : Drawn) (d : Disk)
      → IsDrawn x509 r
      → IsAble d
      → IsFresh force d (server_of out)
      → IsFresh force d (client_of out)
      → Works
          (Able (dirs_of out))
          (generate_server_keys pem x509 sha256 b64 ed pq (server_of out) (client_of out) force r)
          d
  unfolding generate_server_keys is_name
  generate_server_keys-Works out force r d h able server_fresh client_fresh =
      let (tls, made) = generate_self_signed_tls-ok r h in
      let ps = dirs_of out in
      let keys = join (server_of out) (codes "keys") in
      ensure_dirs-Works out force d able server_fresh client_fresh _ _ (λ d4 able4.
        Works-pure _ _ _ d4 tls (ap (wrap_err tls_keypair) made) (
          Works-then ps _ _ _ d4 (write-Works keys _ _ ps d4 refl able4.1.1.0 able4) (λ d5 able5.
            Works-then ps _ _ _ d5 (write-Works keys _ _ ps d5 refl able5.1.1.0 able5)
              (λ d6 able6. Works-return _ _ d6 able6))))

  generate-Works :
      (spec : Spec) (opts : GenerateOptions) (r : Drawn) (d : Disk)
      → IsDrawn x509 r
      → IsAble d
      → IsFresh opts.force d (server_of (clean opts.out_dir))
      → IsFresh opts.force d (client_of (clean opts.out_dir))
      → Works
          (Able (dirs_of (clean opts.out_dir)))
          (generate pem x509 sha256 b64 ed pq spec opts r)
          d
  unfolding generate
  generate-Works spec opts r d h able server_fresh client_fresh =
      let out = clean opts.out_dir in
      let ps = dirs_of out in
      Works-bind _ _ _ _ d
        (generate_server_keys-Works out opts.force r d h able server_fresh client_fresh)
        (λ (tls : TlsKeypair) d1 able1.
          Works-bind _ _ _ _ d1 (generate_client_keys-Works out r d1 h able1)
            (λ (pubs : Bytes × Bytes) d2 able2.
              Works-then ps _ _ _ d2 (generate_configs-Works spec out tls pubs d2 able2)
                (λ d3 able3. Works-return _ _ d3 able3)))

  -- Generate succeeds if no call on the disk is refused, the keys have been drawn and crypto/x509 takes them, and at each of
  -- the two output directories there is nothing, or a directory that -force allows to be replaced.
  pub generate_succeeds :
      (spec : Spec) (opts : GenerateOptions) (r : Drawn) (d : Disk)
      → IsDrawn x509 r
      → IsAble d
      → IsFresh opts.force d (server_of (clean opts.out_dir))
      → IsFresh opts.force d (client_of (clean opts.out_dir))
      → (res : GenerateResult) × (d' : Disk) × (generate pem x509 sha256 b64 ed pq spec opts r d
          ≡ (ok res, d'))
  unfolding Works
  generate_succeeds spec opts r d h able server_fresh client_fresh =
      let (res, d', e, _) = generate-Works spec opts r d h able server_fresh client_fresh in
      (res, d', e)
