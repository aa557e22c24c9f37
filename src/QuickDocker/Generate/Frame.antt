-- ===== src/QuickDocker/Generate/Frame.antt =====
-- Which files Generate leaves as they were, however it ends.
use mathlib.Core.List.{append_assoc}
use passage.Go.Path.{clean}
use passage.Base.{
  if◌then◌else◌, Bytes, [], ◌∷◌, ◌++◌, Map, none, lookup, same, same→eq, ◌≡◌, ◌≢◌, refl, arith,
  true, false, Bool, Result, lookup-insert, not, same_iff, ◌||◌, Bool-cases, inl, ap, inr, codes,
  ok, ◌∙◌, err, has_prefix-append,
}
use passage.Go.Disk.{
  Disk, M, ◌>>=◌, ◌>>◌, and_then, pure, join, is_under, remove_all, mkdir_all, write, chmod,
  keep_files, keep, Stat, stat, is_file, unknown, is_absent, is_dir, below, below-join,
}
use passage.QuickDocker.Generate.{
  Drawn, GenerateOptions, try_disk, try_files, ensure_fresh_dir, by_stat, generate_server_keys,
  generate_client_keys, generate_configs, generate,
}
use passage.Go.Files.{write_file}
use passage.Auth.Keys.{
  Pem, Base64, write_pq_privkey_pem, write_privkey_pem, pq_privkey_pem_type, privkey_pem_type,
}
use passage.QuickDocker.Cert.{X509, TlsKeypair}
use passage.Auth.Crypto.{Ed25519, Mldsa65}
use passage.QuickDocker.Spec.{Spec}

-- The content at the path is the same after the computation.
unfoldable pub Keeps : Bytes → {E A : Type 0} → M E A → Type 0
Keeps q m = (d : Disk) → lookup q (m d).1.files.contents ≡ lookup q d.files.contents

pub lookup-keep_files :
    (kept : Bytes → Bool) (q : Bytes) (m : Map Bytes)
    → lookup q (keep_files kept m) ≡ (if kept q then lookup q m else none)
unfolding lookup keep_files
lookup-keep_files kept q [] = ground arith
lookup-keep_files kept q ((p, b) ∷ m) = elim (Bool-cases (same p q)) [
  | inl here_ ↦ ground (arith, lookup-keep_files kept q m, ap kept (same→eq p q here_))
  | inr away ↦ ground (arith, lookup-keep_files kept q m)
]

module _ (q : Bytes) where
  pub Keeps-pure : {E A : Type 0} (r : Result E A) → Keeps q (pure r)
  unfolding Keeps
  Keeps-pure r d = refl

  pub Keeps-bind :
      {E A B : Type 0} (m : M E A) (f : A → M E B)
      → Keeps q m
      → ((a : A) → Keeps q (f a))
      → Keeps q (m >>= f)
  unfolding Keeps
  Keeps-bind {E = E} {A = A} m f k l d = after (m d) (k d)
    where
      after :
          (r : Result E A × Disk)
          → lookup q r.1.files.contents ≡ lookup q d.files.contents
          → lookup q (and_then f r).1.files.contents ≡ lookup q d.files.contents
      after (ok a, d') same_ = l a d' ∙ same_
      after (err e, d') same_ = same_

  pub Keeps-then :
      {E B : Type 0} (m : M E (Unit {0})) (k : M E B) → Keeps q m → Keeps q k → Keeps q (m >> k)
  Keeps-then m k h l = Keeps-bind m (λ _. k) h (λ _. l)

  pub Keeps-write : (p b : Bytes) → p ≢ q → Keeps q (try_disk (write p b))
  unfolding Keeps write write_file
  Keeps-write p b ne d = ground (arith, lookup-insert p q b d.files.contents, same_iff p q)

  pub Keeps-mkdir_all : (p : Bytes) → Keeps q (try_disk (mkdir_all p))
  unfolding Keeps mkdir_all
  Keeps-mkdir_all p d = ground arith

  pub Keeps-chmod : (p : Bytes) → Keeps q (try_disk (chmod p))
  unfolding Keeps chmod
  Keeps-chmod p d = ground arith

  pub Keeps-remove_all : (p : Bytes) → is_under p q ≡ false → Keeps q (try_disk (remove_all p))
  unfolding Keeps remove_all keep
  Keeps-remove_all p out d = ground (
    arith,
    lookup-keep_files (λ x. not (is_under p x)) q d.files.contents,
    lookup-keep_files (λ x. not (is_under p x) || d.remains x) q d.files.contents,
  )

  Keeps-by_stat :
      (p : Bytes) (force : Bool) (s : Stat) → is_under p q ≡ false → Keeps q (by_stat p force s)
  unfolding Keeps by_stat
  Keeps-by_stat p force is_file out d = refl
  Keeps-by_stat p force unknown out d = refl
  Keeps-by_stat p force is_absent out d = Keeps-mkdir_all p d
  Keeps-by_stat p true is_dir out d =
      Keeps-then (try_disk (remove_all p)) (try_disk (mkdir_all p)) (Keeps-remove_all p out)
        (Keeps-mkdir_all p) d
  Keeps-by_stat p false is_dir out d = refl

  pub Keeps-ensure_fresh_dir :
      (p : Bytes) (force : Bool) → is_under p q ≡ false → Keeps q (ensure_fresh_dir p force)
  unfolding Keeps ensure_fresh_dir
  Keeps-ensure_fresh_dir p force out d = Keeps-by_stat p force (stat d p) out d

-- The files of a directory, and of its directory `keys`, are none of those outside it.
module _ (q dir : Bytes) (out : is_under dir q ≡ false) where
  pub join-ne : (name : Bytes) → join dir name ≢ q
  unfolding join is_under
  join-ne name e = ground (arith, has_prefix-append (below dir) name)

  pub join-join-ne : (name : Bytes) → join (join dir (codes "keys")) name ≢ q
  unfolding join is_under
  join-join-ne name e = ground (
    arith,
    below-join dir (codes "keys") refl,
    append_assoc (below dir) (codes "keys/") name,
    has_prefix-append (below dir) (codes "keys/" ++ name),
  )

module _ (pem : Pem) (x509 : X509) (sha256 : Bytes → Bytes) (b64 : Base64) (ed : Ed25519)
    {PublicKey PrivateKey : Type 0} (pq : Mldsa65 PublicKey PrivateKey) (q : Bytes) where
  Keeps-write_privkey_pem :
      (p priv : Bytes) → p ≢ q → Keeps q (try_files (λ f. write_privkey_pem pem ed f p priv))
  unfolding Keeps write_privkey_pem write_file
  Keeps-write_privkey_pem p priv ne d = ground (
    arith,
    lookup-insert p q
        (pem.encode_to_memory (record { block_type = privkey_pem_type; bytes = ed.seed priv }))
        d.files.contents,
    same_iff p q,
  )

  pub Keeps-write_pq_privkey_pem :
      (p seed : Bytes) → p ≢ q → Keeps q (try_files (λ f. write_pq_privkey_pem pem pq f p seed))
  unfolding Keeps write_pq_privkey_pem write_file
  Keeps-write_pq_privkey_pem p seed ne d = ground (
    arith,
    lookup-insert p q
        (pem.encode_to_memory (record { block_type = pq_privkey_pem_type; bytes = seed }))
        d.files.contents,
    same_iff p q,
  )

  pub Keeps-generate_client_keys :
      (client_dir : Bytes) (r : Drawn)
      → join (join client_dir (codes "keys")) (codes "client.ed25519") ≢ q
      → join (join client_dir (codes "keys")) (codes "client.mldsa") ≢ q
      → Keeps q (generate_client_keys pem x509 sha256 b64 ed pq client_dir r)
  unfolding generate_client_keys
  Keeps-generate_client_keys client_dir r ne ne_pq =
      Keeps-bind q _ _ (Keeps-pure q _) (λ (pair : Bytes × Bytes).
        Keeps-then q _ _ (Keeps-write_privkey_pem _ pair.1 ne) (
          Keeps-then q _ _ (Keeps-chmod q _) (
            Keeps-bind q _ _ (Keeps-pure q _) (λ (pq_pair : PublicKey × PrivateKey × Bytes).
              Keeps-then q _ _ (Keeps-write_pq_privkey_pem _ pq_pair.2 ne_pq)
                (Keeps-then q _ _ (Keeps-chmod q _) (Keeps-pure q _))))))

  pub Keeps-generate_configs :
      (spec : Spec) (server_dir client_dir : Bytes) (tls : TlsKeypair) (pubs : Bytes × Bytes)
      → join server_dir (codes "server.yaml") ≢ q
      → join server_dir (codes "docker-compose.yml") ≢ q
      → join client_dir (codes "client.yaml") ≢ q
      → join client_dir (codes "docker-compose.yml") ≢ q
      → Keeps q (generate_configs pem x509 sha256 b64 ed pq spec server_dir client_dir tls pubs)
  unfolding generate_configs
  Keeps-generate_configs spec server_dir client_dir tls pubs a b c e =
      Keeps-then q _ _ (Keeps-write q _ _ a) (
        Keeps-then q _ _ (Keeps-write q _ _ b)
          (Keeps-then q _ _ (Keeps-write q _ _ c) (Keeps-write q _ _ e)))

  pub Keeps-generate_server_keys :
      (server_dir client_dir : Bytes) (force : Bool) (r : Drawn)
      → is_under server_dir q ≡ false
      → is_under client_dir q ≡ false
      → Keeps q (generate_server_keys pem x509 sha256 b64 ed pq server_dir client_dir force r)
  unfolding generate_server_keys
  Keeps-generate_server_keys server_dir client_dir force r s c =
      Keeps-then q _ _ (Keeps-ensure_fresh_dir q server_dir force s) (
        Keeps-then q _ _ (Keeps-ensure_fresh_dir q client_dir force c) (
          Keeps-then q _ _ (Keeps-mkdir_all q _) (
            Keeps-then q _ _ (Keeps-mkdir_all q _) (
              Keeps-bind q _ _ (Keeps-pure q _) (λ (tls : TlsKeypair).
                Keeps-then q _ _ (Keeps-write q _ tls.cert_pem (join-join-ne q server_dir s _)) (
                  Keeps-then q _ _ (Keeps-write q _ tls.key_pem (join-join-ne q server_dir s _))
                    (Keeps-pure q _)))))))

  -- Whether it succeeds or fails, Generate leaves the content of a file as it was that lies outside the directories
  -- `server` and `client` of the output directory.
  pub Keeps-generate :
      (spec : Spec) (opts : GenerateOptions) (r : Drawn)
      → is_under (join (clean opts.out_dir) (codes "server")) q ≡ false
      → is_under (join (clean opts.out_dir) (codes "client")) q ≡ false
      → Keeps q (generate pem x509 sha256 b64 ed pq spec opts r)
  unfolding generate
  Keeps-generate spec opts r s c =
      Keeps-bind q _ _ (Keeps-generate_server_keys _ _ opts.force r s c) (λ (tls : TlsKeypair).
        Keeps-bind q _ _
          (Keeps-generate_client_keys _ r (join-join-ne q _ c _) (join-join-ne q _ c _))
          (λ (pubs : Bytes × Bytes).
            Keeps-then q _ _
              (Keeps-generate_configs spec _ _ tls pubs (join-ne q _ s _) (join-ne q _ s _)
                (join-ne q _ c _) (join-ne q _ c _))
              (Keeps-pure q _)))
