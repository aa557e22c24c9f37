-- ===== src/Go/Sort/Arranged.antt =====
-- Sorting gives an arrangement of its input.
use mathlib.Core.List.{Permᴰ}
use passage.Base.{◌∷◌, [], Bytes, List, All, Bool-cases, refl, ◌≡◌, inl, subst, inr}
use passage.Go.Sort.{leb_bytes, insert_sorted, sort_strings}
use mathlib.Core.List.Permᴰ

insert_sorted-perm : (a : Bytes) (bs : List Bytes) → Permᴰ (a ∷ bs) (insert_sorted a bs)
unfolding insert_sorted
insert_sorted-perm a [] = Permᴰ.refl (a ∷ [])
insert_sorted-perm a (b ∷ bs) = elim (Bool-cases (leb_bytes a b)) [
  | inl e ↦ rw e (Permᴰ.refl (a ∷ (b ∷ bs)))
  | inr e ↦ rw e (Permᴰ.trans (Permᴰ.swap refl refl) (Permᴰ.cons refl (insert_sorted-perm a bs)))
]

pub sort_strings-arranges : (xs : List Bytes) → Permᴰ xs (sort_strings xs)
unfolding sort_strings
sort_strings-arranges [] = Permᴰ.nil
sort_strings-arranges (x ∷ xs) =
    Permᴰ.trans (Permᴰ.cons refl (sort_strings-arranges xs))
      (insert_sorted-perm x (sort_strings xs))

pub All-perm : {A : Type 0} (P : A → Type 0) {xs ys : List A} → Permᴰ xs ys → All P xs → All P ys
All-perm P Permᴰ.nil h = h
All-perm P (Permᴰ.cons e p) (h, hs) = (subst P e h, All-perm P p hs)
All-perm P (Permᴰ.swap e f) (h, (g, hs)) = (subst P f g, (subst P e h, hs))
All-perm P (Permᴰ.trans p q) h = All-perm P q (All-perm P p h)

pub perm-nil : {A : Type 0} {xs ys : List A} → Permᴰ xs ys → ys ≡ [] → xs ≡ []
perm-nil Permᴰ.nil h = refl
perm-nil (Permᴰ.cons e p) h = absurd (cc)
perm-nil (Permᴰ.swap e f) h = absurd (cc)
perm-nil (Permᴰ.trans p q) h = perm-nil p (perm-nil q h)
