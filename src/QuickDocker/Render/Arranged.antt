-- ===== src/QuickDocker/Render/Arranged.antt =====
-- The services in the order of their names, as the renderers of internal/quickdocker/generate.go walk over them.
use passage.QuickDocker.Spec.{ServiceEntry}
use passage.QuickDocker.Render.{service_keys, sorted_service_names, or_zero}
use passage.Go.Sort.Arranged.{sort_strings-arranges}
use mathlib.Core.List.{Permᴰ}
use passage.Base.{
  Distinct, Map, lookup, Bytes, List, [], ap, keys, subst, ◌∷◌, ◌≡◌, All, refl, same_refl, ◌∙◌, ◌≢◌,
  arith, same_iff,
}

-- The entries of the map with these names, in their order.
unfoldable pub arranged : Map ServiceEntry → List Bytes → Map ServiceEntry
arranged m [] = []
arranged m (name ∷ rest) = (name, or_zero (lookup name m)) ∷ arranged m rest

arranged-perm :
    (m : Map ServiceEntry) {ks js : List Bytes}
    → Permᴰ ks js
    → Permᴰ (arranged m ks) (arranged m js)
unfolding arranged
arranged-perm m Permᴰ.nil = Permᴰ.nil
arranged-perm m (Permᴰ.cons e p) =
    Permᴰ.cons (ap (λ k. (k, or_zero (lookup k m))) e) (arranged-perm m p)
arranged-perm m (Permᴰ.swap e f) =
    Permᴰ.swap (ap (λ k. (k, or_zero (lookup k m))) e) (ap (λ k. (k, or_zero (lookup k m))) f)
arranged-perm m (Permᴰ.trans p q) = Permᴰ.trans (arranged-perm m p) (arranged-perm m q)

-- An entry under another name is not read.
arranged-cons :
    (name : Bytes) (sv : ServiceEntry) (m : Map ServiceEntry) (ks : List Bytes)
    → All (λ k. name ≢ k) ks
    → arranged ((name, sv) ∷ m) ks ≡ arranged m ks
unfolding arranged lookup
arranged-cons name sv m [] h = refl
arranged-cons name sv m (k ∷ ks) (h, hs) =
    ground (arith, arranged-cons name sv m ks hs, same_iff name k)

service_keys_lem : (m : Map ServiceEntry) → service_keys m ≡ keys m
unfolding service_keys
service_keys_lem [] = refl
service_keys_lem ((name, sv) ∷ m) = ap (λ ks. name ∷ ks) (service_keys_lem m)

arranged-keys : (m : Map ServiceEntry) → Distinct (keys m) → arranged m (keys m) ≡ m
unfolding arranged lookup
arranged-keys [] d = refl
arranged-keys ((name, sv) ∷ m) (h, d) =
    rw (same_refl name)
      (ap (λ rest. (name, sv) ∷ rest) (arranged-cons name sv m (keys m) h ∙ arranged-keys m d))

pub arranged-sorted :
    (m : Map ServiceEntry) → Distinct (keys m) → Permᴰ m (arranged m (sorted_service_names m))
unfolding sorted_service_names
arranged-sorted m d =
    subst (λ n. Permᴰ n (arranged m (sorted_service_names m)))
      (ap (arranged m) (service_keys_lem m) ∙ arranged-keys m d)
      (arranged-perm m (sort_strings-arranges (service_keys m)))
