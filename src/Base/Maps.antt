-- ===== src/Base/Maps.antt =====
-- A Go map with string keys, as an association list.
use mathlib.Core.Path.{◌≡◌, refl}
use mathlib.Core.List.{List, [], ◌∷◌, ◌++◌}
use mathlib.Core.Option.{Option, none, some}
use native.Mathlib.Omega.{arith}
use package.passage.Base.Tests.{if◌then◌else◌}
use package.passage.Base.Text.{Bytes, same, same_iff}
use package.passage.Base.Lists.{All}
use mathlib.Core.Logic.{◌≢◌, ◌↔◌}

abbrev pub Map {ℓ} : Type ℓ → Type ℓ
Map V = List (Bytes × V)

module _ {ℓ} {V : Type ℓ} where
  -- v, ok := m[k]
  unfoldable pub lookup : Bytes → Map V → Option V
  lookup k [] = none
  lookup k ((j, v) ∷ m) = if same j k then some v else lookup k m

  -- m[k] = v
  unfoldable pub insert : Bytes → V → Map V → Map V
  insert k v [] = (k, v) ∷ []
  insert k v ((j, w) ∷ m) = if same j k then (k, v) ∷ m else (j, w) ∷ insert k v m

  -- delete(m, k)
  unfoldable pub delete : Bytes → Map V → Map V
  delete k [] = []
  delete k ((j, w) ∷ m) = if same j k then delete k m else (j, w) ∷ delete k m

  pub lookup-insert :
      (k j : Bytes) (v : V) (m : Map V)
      → lookup j (insert k v m) ≡ (if same k j then some v else lookup j m)
  unfolding lookup insert
  lookup-insert k j v [] = refl
  lookup-insert k j v ((i, w) ∷ m) =
      ground (arith, same_iff k j, same_iff i k, same_iff i j, lookup-insert k j v m)

  pub lookup-delete :
      (k j : Bytes) (m : Map V) → lookup j (delete k m) ≡ (if same k j then none else lookup j m)
  unfolding lookup delete
  lookup-delete k j [] = ground arith
  lookup-delete k j ((i, w) ∷ m) =
      ground (arith, same_iff k j, same_iff i k, same_iff i j, lookup-delete k j m)

-- No key is in the map or comes twice.
abbrev pub DistinctFrom {ℓ} : {V : Type ℓ} → Map V → List Bytes → Type ℓ
DistinctFrom m [] = Unit
DistinctFrom m (k ∷ ks) = (lookup k m ≡ none) × All (λ j. k ≢ j) ks × DistinctFrom m ks

-- No key comes twice.
abbrev pub Distinct : List Bytes → Type 0
Distinct [] = Unit
Distinct (k ∷ ks) = All (λ j. k ≢ j) ks × Distinct ks

-- Entries added in turn, each under a key that is not there yet.
abbrev pub Threaded {ℓ} : {V : Type ℓ} → Map V → List (Bytes × V) → Type ℓ
Threaded m [] = Unit
Threaded m ((k, v) ∷ kvs) = (lookup k m ≡ none) × Threaded (insert k v m) kvs

unfoldable pub insert_all {ℓ} : {V : Type ℓ} → Map V → List (Bytes × V) → Map V
insert_all m [] = m
insert_all m ((k, v) ∷ kvs) = insert_all (insert k v m) kvs

abbrev pub keys {ℓ} : {V : Type ℓ} → List (Bytes × V) → List Bytes
keys [] = []
keys ((k, v) ∷ kvs) = k ∷ keys kvs

DistinctFrom-Distinct : (V : Type 0) (ks : List Bytes) → DistinctFrom {V = V} [] ks ↔ Distinct ks
unfolding lookup
DistinctFrom-Distinct V [] = ground arith
DistinctFrom-Distinct V (k ∷ ks) = ground (arith, DistinctFrom-Distinct V ks)

module _ {V : Type 0} where
  pub Threaded-append :
      (m : Map V) (xs ys : List (Bytes × V))
      → Threaded m (xs ++ ys) ↔ (Threaded m xs × Threaded (insert_all m xs) ys)
  unfolding insert_all
  Threaded-append m [] ys = ground arith
  Threaded-append m ((k, v) ∷ xs) ys = ground (arith, Threaded-append (insert k v m) xs ys)

  pub insert_all-append :
      (m : Map V) (xs ys : List (Bytes × V))
      → insert_all m (xs ++ ys) ≡ insert_all (insert_all m xs) ys
  unfolding insert_all
  insert_all-append m [] ys = refl
  insert_all-append m ((k, v) ∷ xs) ys = insert_all-append (insert k v m) xs ys

  DistinctFrom-insert :
      (k : Bytes) (v : V) (m : Map V) (ks : List Bytes)
      → DistinctFrom (insert k v m) ks ↔ (All (λ j. k ≢ j) ks × DistinctFrom m ks)
  DistinctFrom-insert k v m [] = ground arith
  DistinctFrom-insert k v m (j ∷ ks) =
      ground (arith, lookup-insert k j v m, same_iff k j, DistinctFrom-insert k v m ks)

  pub Threaded-DistinctFrom :
      (m : Map V) (kvs : List (Bytes × V)) → Threaded m kvs ↔ DistinctFrom m (keys kvs)
  Threaded-DistinctFrom m [] = ground arith
  Threaded-DistinctFrom m ((k, v) ∷ kvs) =
      ground (arith, Threaded-DistinctFrom (insert k v m) kvs, DistinctFrom-insert k v m (keys kvs))

  pub Threaded-Distinct : (kvs : List (Bytes × V)) → Threaded [] kvs ↔ Distinct (keys kvs)
  Threaded-Distinct kvs =
      ground (arith, Threaded-DistinctFrom [] kvs, DistinctFrom-Distinct V (keys kvs))
