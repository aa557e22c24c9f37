-- ===== src/QuickDocker/Generate/Runs.antt =====
-- What a successful run of Generate's steps tells: the steps it consists of, and the files they left.
use mathlib.Core.List.{append_assoc, append_cancel_left}
use passage.Base.{
  Bytes, ◌++◌, Option, some, lookup, lookup-insert, same, same_refl, Result, ok, err, ◌≡◌, ◌≢◌,
  refl, arith, codes, false, length, sym, ◌∙◌, subst, or_err, or_err-eq-ok, true, ◌&&◌, not,
}
use passage.Go.Files.{write_file}
use passage.Go.Disk.{Disk, M, ◌>>=◌, and_then, join, write, ◌>>◌, pure, is_long, below, below-join}
use passage.Auth.Crypto.{Ed25519, Mldsa65, private_key_size}
use passage.Auth.Keys.{
  Pem, write_privkey_pem, write_pq_privkey_pem, privkey_pem_type, pq_privkey_pem_type, pq_seed_size,
}
use passage.QuickDocker.Generate.{GenerateError, try_disk, try_files, or_fail}
use passage.QuickDocker.Generate.Frame.{Keeps, Keeps-write}

unfoldable pub HasFile : Disk → Bytes → Bytes → Type 0
HasFile d path b = lookup path d.files.contents ≡ some b

-- What holds of the result and of the disk if the computation succeeds.
abbrev AfterOk : {E A : Type 0} → (A → Disk → Type 0) → Result E A × Disk → Type 0
AfterOk R (ok a, d) = R a d
AfterOk R (err e, d) = Unit {0}

unfoldable pub Yields : {E A : Type 0} → Disk → M E A → (A → Disk → Type 0) → Type 0
Yields d m R = AfterOk R (m d)

pub Yields-bind :
    {E A B : Type 0} {d : Disk} (R : B → Disk → Type 0) (m : M E A) (f : A → M E B)
    → ((a : A) (d' : Disk) → m d ≡ (ok a, d') → Yields d' (f a) R)
    → Yields d (m >>= f) R
unfolding Yields
Yields-bind {E = E} {A = A} {d = d} R m f k = after (m d) k
  where
    after :
        (r : Result E A × Disk)
        → ((a : A) (d' : Disk) → r ≡ (ok a, d') → AfterOk R (f a d'))
        → AfterOk R (and_then f r)
    after (ok a, d') next = next a d' refl
    after (err e, d') next = tt

pub Yields-then :
    {E B : Type 0} {d : Disk} (R : B → Disk → Type 0) (m : M E (Unit {0})) (k : M E B)
    → ((d' : Disk) → m d ≡ (ok tt, d') → Yields d' k R)
    → Yields d (m >> k) R
Yields-then R m k next = Yields-bind R m (λ _. k) (λ _. next)

pub Yields-end :
    {E A : Type 0} {d : Disk} (R : A → Disk → Type 0) (m : M E A)
    → ((a : A) (d' : Disk) → m d ≡ (ok a, d') → R a d')
    → Yields d m R
unfolding Yields
Yields-end {E = E} {A = A} {d = d} R m k = after (m d) k
  where
    after : (r : Result E A × Disk) → ((a : A) (d' : Disk) → r ≡ (ok a, d') → R a d') → AfterOk R r
    after (ok a, d') next = next a d' refl
    after (err e, d') next = tt

pub Yields-ok :
    {E A : Type 0} {d d' : Disk} {a : A} (R : A → Disk → Type 0) (m : M E A)
    → Yields d m R
    → m d ≡ (ok a, d')
    → R a d'
unfolding Yields
Yields-ok R m y e = subst (AfterOk R) e y

pub Keeps-HasFile :
    {E A : Type 0} (q b : Bytes) (m : M E A) {d d' : Disk} {a : Result E A}
    → Keeps q m
    → m d ≡ (a, d')
    → HasFile d q b
    → HasFile d' q b
unfolding Keeps HasFile
Keeps-HasFile q b m {d = d} k e h = ground (arith, k d)

pub write-HasFile :
    (p b : Bytes) (d : Disk) {d' : Disk} → try_disk (write p b) d ≡ (ok tt, d') → HasFile d' p b
unfolding write write_file HasFile
write-HasFile p b d e = ground (arith, lookup-insert p p b d.files.contents, same_refl p)

module _ (pem : Pem) where
  pub write_privkey_pem-HasFile :
      (ed : Ed25519) (p priv : Bytes) (d : Disk) {d' : Disk}
      → try_files (λ f. write_privkey_pem pem ed f p priv) d ≡ (ok tt, d')
      → (length priv ≡ private_key_size)
        × HasFile d' p
            (pem.encode_to_memory (record { block_type = privkey_pem_type; bytes = ed.seed priv }))
  unfolding write_privkey_pem write_file HasFile
  write_privkey_pem-HasFile ed p priv d e = ground (
    arith,
    lookup-insert p p
        (pem.encode_to_memory (record { block_type = privkey_pem_type; bytes = ed.seed priv }))
        d.files.contents,
    same_refl p,
  )

  pub write_pq_privkey_pem-HasFile :
      {PublicKey PrivateKey : Type 0} (pq : Mldsa65 PublicKey PrivateKey) (p seed : Bytes)
      (d : Disk) {d' : Disk}
      → try_files (λ f. write_pq_privkey_pem pem pq f p seed) d ≡ (ok tt, d')
      → (length seed ≡ pq_seed_size)
        × HasFile d' p
            (pem.encode_to_memory (record { block_type = pq_privkey_pem_type; bytes = seed }))
  unfolding write_pq_privkey_pem write_file HasFile
  write_pq_privkey_pem-HasFile pq p seed d e = ground (
    arith,
    lookup-insert p p
        (pem.encode_to_memory (record { block_type = pq_privkey_pem_type; bytes = seed }))
        d.files.contents,
    same_refl p,
  )

-- The paths below one directory differ where what follows the directory does.
append-ne : (dir x y : Bytes) → same x y ≡ false → dir ++ x ≢ dir ++ y
append-ne dir x y ne e = ground (arith, append_cancel_left dir x y e, same_refl x)

abbrev tail2 : Bytes → Bytes → Bytes
tail2 a b = a ++ (codes "/" ++ b)

abbrev tail3 : Bytes → Bytes → Bytes → Bytes
tail3 a b c = tail2 a (tail2 b c)

join2 : (dir a b : Bytes) → is_long a ≡ true → join (join dir a) b ≡ below dir ++ tail2 a b
unfolding join
join2 dir a b long = ground (
  arith,
  below-join dir a long,
  append_assoc (below dir) (a ++ codes "/") b,
  append_assoc a (codes "/") b,
)

join3 :
    (dir a b c : Bytes)
    → is_long a ≡ true
    → is_long b ≡ true
    → join (join (join dir a) b) c ≡ below dir ++ tail3 a b c
unfolding join
join3 dir a b c long long_b = ground (
  arith,
  join2 (join dir a) b c long_b,
  below-join dir a long,
  append_assoc (below dir) (a ++ codes "/") (tail2 b c),
  append_assoc a (codes "/") (tail2 b c),
)

module _ (dir a b a' b' : Bytes) where
  pub join2-ne :
      (is_long a && (is_long a' && not (same (tail2 a b) (tail2 a' b')))) ≡ true
      → join (join dir a) b ≢ join (join dir a') b'
  join2-ne h e =
      append-ne (below dir) (tail2 a b) (tail2 a' b') (ground arith)
        (sym (join2 dir a b (ground arith)) ∙ e ∙ join2 dir a' b' (ground arith))

  pub join2-ne-join3 :
      (c' : Bytes)
      → (is_long a && (is_long a' && (is_long b' && not (same (tail2 a b) (tail3 a' b' c')))))
        ≡ true
      → join (join dir a) b ≢ join (join (join dir a') b') c'
  join2-ne-join3 c' h e =
      append-ne (below dir) (tail2 a b) (tail3 a' b' c') (ground arith)
        (sym (join2 dir a b (ground arith)) ∙ e ∙ join3 dir a' b' c' (ground arith) (ground arith))

  pub join3-ne :
      (c c' : Bytes)
      → (is_long a
          && (is_long b
              && (is_long a' && (is_long b' && not (same (tail3 a b c) (tail3 a' b' c'))))))
        ≡ true
      → join (join (join dir a) b) c ≢ join (join (join dir a') b') c'
  join3-ne c c' h e = append-ne (below dir) (tail3 a b c) (tail3 a' b' c') (ground arith) (
      sym (join3 dir a b c (ground arith) (ground arith))
      ∙ e
      ∙ join3 dir a' b' c' (ground arith) (ground arith))

-- The files other than the one at a path are as they were.
abbrev pub OthersKept : Bytes → Disk → Disk → Type 0
OthersKept p d d' = (q b : Bytes) → p ≢ q → HasFile d q b → HasFile d' q b

pub Yields-write :
    {B : Type 0} (d : Disk) (R : B → Disk → Type 0) (p b : Bytes) (k : M GenerateError B)
    → ((d' : Disk) → HasFile d' p b → OthersKept p d d' → Yields d' k R)
    → Yields d (try_disk (write p b) >> k) R
Yields-write d R p b k next = Yields-then R (try_disk (write p b)) k (λ d' w.
    next d' (write-HasFile p b d w)
      (λ q c ne h. Keeps-HasFile q c (try_disk (write p b)) (Keeps-write q p b ne) w h))

pub Yields-write_end :
    (d : Disk) (R : Unit {0} → Disk → Type 0) (p b : Bytes)
    → ((d' : Disk) → HasFile d' p b → OthersKept p d d' → R tt d')
    → Yields d (try_disk (write p b)) R
Yields-write_end d R p b next = Yields-end R (try_disk (write p b)) (λ _ d' w.
    next d' (write-HasFile p b d w)
      (λ q c ne h. Keeps-HasFile q c (try_disk (write p b)) (Keeps-write q p b ne) w h))

-- A step that does not touch the disk.
pub Yields-pure :
    {E A B : Type 0} (d : Disk) (R : B → Disk → Type 0) (r : Result E A) (f : A → M E B)
    → ((a : A) → r ≡ ok a → Yields d (f a) R)
    → Yields d (pure r >>= f) R
unfolding Yields
Yields-pure d R (ok a) f next = next a refl
Yields-pure d R (err e) f next = tt

pub Yields-return :
    {A : Type 0} (d : Disk) (R : A → Disk → Type 0) (a : A)
    → R a d
    → Yields d (pure {E = GenerateError} (ok a)) R
unfolding Yields
Yields-return d R a h = h

pub Yields-or_fail :
    {A B : Type 0} (d : Disk) (R : B → Disk → Type 0) (o : Option A) (e : GenerateError)
    (f : A → M GenerateError B)
    → ((a : A) → o ≡ some a → Yields d (f a) R)
    → Yields d (or_fail o e >>= f) R
Yields-or_fail d R o e f next =
    Yields-pure d R (or_err o e) f (λ a same_. next a (or_err-eq-ok o e same_))
