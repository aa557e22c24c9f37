-- ===== src/QuickDocker/Generate/Success.antt =====
-- The calls of Generate on a disk that refuses nothing.
use passage.Base.{
  Bytes, List, [], ◌∷◌, Bool, true, false, not, ◌&&◌, same, same→eq, Result, ok, ◌≡◌, ◌⊎◌, inl, inr,
  refl, arith, length, Bool-cases, ap, ◌∙◌, insert, Map, All, same_refl,
}
use passage.Go.Disk.{
  Disk, M, ◌>>=◌, ◌>>◌, and_then, pure, is_under, stat, is_absent, is_dir, mem, keep_dirs, keep,
  mkdir_all, remove_all, write, chmod, join, is_name, files_of, has_dir-join,
}
use passage.Go.Files.{write_file}
use passage.QuickDocker.Generate.{GenerateError, ensure_fresh_dir, by_stat, try_disk, try_files}
use passage.QuickDocker.Generate.Frame.{lookup-keep_files}
use passage.Auth.Keys.{
  Pem, write_pq_privkey_pem, write_privkey_pem, pq_seed_size, pq_privkey_pem_type, privkey_pem_type,
}
use passage.Auth.Crypto.{Ed25519, Mldsa65, private_key_size}

-- No call is refused.
pub record IsAble (d : Disk) : Type 0 where
  pub stats : (p : Bytes) → d.stat_fails p ≡ false
  pub removes : (p : Bytes) → d.removable p ≡ true
  pub creates : (p : Bytes) → d.creatable p ≡ true
  pub chmods : (p : Bytes) → d.chmodable p ≡ true
  pub writes : (p : Bytes) → d.files.writable p ≡ true

-- There is nothing at the path, or a directory that -force allows to be replaced.
abbrev pub IsFresh : Bool → Disk → Bytes → Type 0
IsFresh force d p = (stat d p ≡ is_absent) ⊎ ((stat d p ≡ is_dir) × (force ≡ true))

-- The computation succeeds, and what it leaves has the property.
unfoldable pub Works : {E A : Type 0} → (A → Disk → Type 0) → M E A → Disk → Type 0
Works {A = A} P m d = (a : A) × (d' : Disk) × (m d ≡ (ok a, d')) × P a d'

pub Works-bind :
    {E A B : Type 0} (P : A → Disk → Type 0) (Q : B → Disk → Type 0) (m : M E A) (f : A → M E B)
    (d : Disk)
    → Works P m d
    → ((a : A) (d' : Disk) → P a d' → Works Q (f a) d')
    → Works Q (m >>= f) d
unfolding Works
Works-bind P Q m f d (a, d1, e, p) k =
    let (b, d2, e2, q) = k a d1 p in (b, d2, ap (and_then f) e ∙ e2, q)

mem-keep_dirs :
    (kept : Bytes → Bool) (q : Bytes) (l : List Bytes)
    → mem q (keep_dirs kept l) ≡ (kept q && mem q l)
unfolding mem keep_dirs
mem-keep_dirs kept q [] = ground arith
mem-keep_dirs kept q (p ∷ l) = elim (Bool-cases (same p q)) [
  | inl here_ ↦ ground (arith, mem-keep_dirs kept q l, ap kept (same→eq p q here_))
  | inr away ↦ ground (arith, mem-keep_dirs kept q l)
]

stat-keep :
    (kept : Bytes → Bool) (d : Disk) (q : Bytes) → kept q ≡ true → stat (keep kept d) q ≡ stat d q
unfolding stat keep
stat-keep kept d q stays =
    ground (arith, mem-keep_dirs kept q d.dirs, lookup-keep_files kept q d.files.contents)

-- Another directory.
mem-other : (p q : Bytes) (l : List Bytes) → is_under p q ≡ false → mem q (p ∷ l) ≡ mem q l
unfolding mem is_under
mem-other p q l out = ground arith

stat-dirs :
    (p : Bytes) (d : Disk) (q : Bytes)
    → is_under p q ≡ false
    → stat (record d { dirs = p ∷ d.dirs }) q ≡ stat d q
unfolding stat mem is_under
stat-dirs p d q out = ground arith

mem-same : (p : Bytes) (l : List Bytes) → mem p (p ∷ l) ≡ true
unfolding mem
mem-same p l = ground (arith, same_refl p)

mem-cons : (p q : Bytes) (l : List Bytes) → mem q l ≡ true → mem q (p ∷ l) ≡ true
unfolding mem
mem-cons p q l h = ground arith

-- What a disk refuses does not depend on what is on it.
IsAble-holding :
    (d : Disk) (l : List Bytes) (m : Map Bytes)
    → IsAble d
    → IsAble (record d { dirs = l; files = record d.files { contents = m } })
IsAble-holding d l m able = record {
  stats = able.stats;
  removes = able.removes;
  creates = able.creates;
  chmods = able.chmods;
  writes = able.writes;
}

-- No call is refused, and these directories are there.
abbrev pub Able : {A : Type 0} → List Bytes → A → Disk → Type 0
Able ps _ d = IsAble d × All (λ p. mem p d.dirs ≡ true) ps

All-cons :
    (p : Bytes) (l ps : List Bytes)
    → All (λ q. mem q l ≡ true) ps
    → All (λ q. mem q (p ∷ l) ≡ true) ps
All-cons p l [] h = tt
All-cons p l (q ∷ ps) (h, hs) = (mem-cons p q l h, All-cons p l ps hs)

-- What is not below the directory is as it was.
abbrev pub IsAside : Bytes → Disk → Disk → Type 0
IsAside p d d' =
    (q : Bytes) → is_under p q ≡ false → (stat d' q ≡ stat d q) × (mem q d'.dirs ≡ mem q d.dirs)

pub ensure_fresh_dir-Works :
    (p : Bytes) (force : Bool) (d : Disk)
    → IsAble d
    → IsFresh force d p
    → Works (λ _ d'. Able (p ∷ []) tt d' × IsAside p d d') (ensure_fresh_dir p force) d
unfolding ensure_fresh_dir by_stat Works mkdir_all remove_all keep
ensure_fresh_dir-Works p force d able (inl absent) = (
  tt,
  record d { dirs = p ∷ d.dirs },
  ground (arith, able.creates p),
  (
    (IsAble-holding d (p ∷ d.dirs) d.files.contents able, (mem-same p d.dirs, tt)),
    λ q out. (stat-dirs p d q out, mem-other p q d.dirs out),
  ),
)
ensure_fresh_dir-Works p force d able (inr (dir, forced)) =
    let kept = keep (λ q. not (is_under p q)) d in
    (
      tt,
      record kept { dirs = p ∷ kept.dirs },
      ground (arith, able.creates p, able.removes p),
      (
        (IsAble-holding d (p ∷ kept.dirs) kept.files.contents able, (mem-same p kept.dirs, tt)),
        λ q out. (
          stat-dirs p kept q out ∙ stat-keep (λ q. not (is_under p q)) d q (ground arith),
          mem-other p q kept.dirs out
              ∙ (ground (arith, mem-keep_dirs (λ q. not (is_under p q)) q d.dirs)),
        ),
      ),
    )

-- The other calls on the disk.
pub mkdir_all-Works :
    (p : Bytes) (ps : List Bytes) (d : Disk)
    → Able ps tt d
    → Works (Able (p ∷ ps)) (try_disk (mkdir_all p)) d
unfolding Works mkdir_all
mkdir_all-Works p ps d (able, there) = (
  tt,
  record d { dirs = p ∷ d.dirs },
  ground (arith, able.creates p),
  (
    IsAble-holding d (p ∷ d.dirs) d.files.contents able,
    (mem-same p d.dirs, All-cons p d.dirs ps there),
  ),
)

pub chmod-Works :
    (p : Bytes) (ps : List Bytes) (d : Disk) → Able ps tt d → Works (Able ps) (try_disk (chmod p)) d
unfolding Works chmod
chmod-Works p ps d (able, there) = (tt, d, ground (arith, able.chmods p), (able, there))

abbrev with_content : Disk → Bytes → Bytes → Disk
with_content d p b = record d { files = record d.files { contents = insert p b d.files.contents } }

writes-join :
    (dir name : Bytes) (d : Disk)
    → is_name name ≡ true
    → mem dir d.dirs ≡ true
    → IsAble d
    → (files_of d).writable (join dir name) ≡ true
writes-join dir name d h m able =
    ground (arith, able.writes (join dir name), has_dir-join dir name d.dirs h m)

pub write-Works :
    (dir name b : Bytes) (ps : List Bytes) (d : Disk)
    → is_name name ≡ true
    → mem dir d.dirs ≡ true
    → Able ps tt d
    → Works (Able ps) (try_disk (write (join dir name) b)) d
unfolding Works write write_file
write-Works dir name b ps d h m (able, there) = (
  tt,
  with_content d (join dir name) b,
  rw (writes-join dir name d h m able) refl,
  (IsAble-holding d d.dirs (insert (join dir name) b d.files.contents) able, there),
)

module _ (pem : Pem) where
  pub write_privkey_pem-Works :
      (ed : Ed25519) (dir name priv : Bytes) (ps : List Bytes) (d : Disk)
      → length priv ≡ private_key_size
      → is_name name ≡ true
      → mem dir d.dirs ≡ true
      → Able ps tt d
      → Works (Able ps) (try_files (λ f. write_privkey_pem pem ed f (join dir name) priv)) d
  unfolding Works write_privkey_pem write_file
  write_privkey_pem-Works ed dir name priv ps d size h m (able, there) =
      let p = join dir name in
      let b =
        pem.encode_to_memory (record { block_type = privkey_pem_type; bytes = ed.seed priv }) in
      (
        tt,
        with_content d p b,
        rw (size, writes-join dir name d h m able) refl,
        (IsAble-holding d d.dirs (insert p b d.files.contents) able, there),
      )

  pub write_pq_privkey_pem-Works :
      {PublicKey PrivateKey : Type 0} (pq : Mldsa65 PublicKey PrivateKey) (dir name seed : Bytes)
      (ps : List Bytes) (d : Disk)
      → length seed ≡ pq_seed_size
      → is_name name ≡ true
      → mem dir d.dirs ≡ true
      → Able ps tt d
      → Works (Able ps) (try_files (λ f. write_pq_privkey_pem pem pq f (join dir name) seed)) d
  unfolding Works write_pq_privkey_pem write_file
  write_pq_privkey_pem-Works pq dir name seed ps d size h m (able, there) =
      let p = join dir name in
      let b = pem.encode_to_memory (record { block_type = pq_privkey_pem_type; bytes = seed }) in
      (
        tt,
        with_content d p b,
        rw (size, writes-join dir name d h m able) refl,
        (IsAble-holding d d.dirs (insert p b d.files.contents) able, there),
      )

pub Works-then :
    {E B : Type 0} (ps : List Bytes) (Q : B → Disk → Type 0) (m : M E (Unit {0})) (k : M E B)
    (d : Disk)
    → Works (Able ps) m d
    → ((d' : Disk) → Able ps tt d' → Works Q k d')
    → Works Q (m >> k) d
Works-then ps Q m k d w next = Works-bind (Able ps) Q m (λ _. k) d w (λ _ d' able. next d' able)

pub Works-pure :
    {A B : Type 0} (Q : B → Disk → Type 0) (r : Result GenerateError A) (f : A → M GenerateError B)
    (d : Disk) (a : A)
    → r ≡ ok a
    → Works Q (f a) d
    → Works Q (pure r >>= f) d
unfolding Works
Works-pure Q r f d a e (b, d', works, q) = (b, d', ap (λ x. and_then f (x, d)) e ∙ works, q)

pub Works-return :
    {A : Type 0} (Q : A → Disk → Type 0) (a : A) (d : Disk)
    → Q a d
    → Works Q (pure {E = GenerateError} (ok a)) d
unfolding Works
Works-return Q a d q = (a, d, refl, q)
