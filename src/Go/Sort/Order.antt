-- ===== src/Go/Sort/Order.antt =====
-- The order of texts is total, and sorting forgets the order of its input.
use mathlib.Core.List.{Permᴰ}
use passage.Go.Sort.{leb_bytes, insert_sorted, sort_strings}
use passage.Base.{Bytes, List, ◌≡◌, arith, false, true, ◌∷◌, [], refl, ◌∙◌}

leb_bytes-total : (a b : Bytes) → (leb_bytes a b ≡ false) → leb_bytes b a ≡ true
unfolding leb_bytes
leb_bytes-total [] b h = cc
leb_bytes-total (x ∷ a) [] h = refl
leb_bytes-total (x ∷ a) (y ∷ b) h = ground (arith, leb_bytes-total a b)

leb_bytes-antisym : (a b : Bytes) → leb_bytes a b ≡ true → leb_bytes b a ≡ true → a ≡ b
unfolding leb_bytes
leb_bytes-antisym [] [] h k = refl
leb_bytes-antisym [] (y ∷ b) h k = cc
leb_bytes-antisym (x ∷ a) [] h k = cc
leb_bytes-antisym (x ∷ a) (y ∷ b) h k = ground (arith, leb_bytes-antisym a b)

leb_bytes_trans :
    (a b c : Bytes) → leb_bytes a b ≡ true → leb_bytes b c ≡ true → leb_bytes a c ≡ true
unfolding leb_bytes
leb_bytes_trans [] b c h k = refl
leb_bytes_trans (x ∷ a) [] c h k = cc
leb_bytes_trans (x ∷ a) (y ∷ b) [] h k = cc
leb_bytes_trans (x ∷ a) (y ∷ b) (z ∷ c) h k = ground (arith, leb_bytes_trans a b c)

insert_sorted_comm :
    (a b : Bytes) (ls : List Bytes)
    → insert_sorted a (insert_sorted b ls) ≡ insert_sorted b (insert_sorted a ls)
unfolding insert_sorted
insert_sorted_comm a b [] = ground (arith, leb_bytes-total a b, leb_bytes-antisym a b)
insert_sorted_comm a b (c ∷ ls) = ground (
  arith,
  leb_bytes-total a b,
  leb_bytes-antisym a b,
  leb_bytes_trans a b c,
  leb_bytes_trans b a c,
  leb_bytes-total a c,
  leb_bytes-total b c,
  leb_bytes-total c a,
  leb_bytes-total c b,
  leb_bytes_trans a c b,
  leb_bytes_trans b c a,
  insert_sorted_comm a b ls,
)

-- Two arrangements of the same texts are sorted alike.
pub sort_strings-perm : {xs ys : List Bytes} → Permᴰ xs ys → sort_strings xs ≡ sort_strings ys
unfolding sort_strings
sort_strings-perm Permᴰ.nil = refl
sort_strings-perm (Permᴰ.cons e p) = cc (e, sort_strings-perm p)
sort_strings-perm (Permᴰ.swap {a} {b} {l} e f) =
    rw (← e, ← f) (insert_sorted_comm a b (sort_strings l))
sort_strings-perm (Permᴰ.trans p q) = sort_strings-perm p ∙ sort_strings-perm q
