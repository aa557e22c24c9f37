-- ===== src/Go/Sort.antt =====
-- sort.Strings: the one ascending arrangement of a list of texts, byte by byte.
pub mod Order
pub mod Arranged
use passage.Base.{ℕ, ltb, ◌==◌, ◌&&◌, ◌||◌, Bool, true, false, List, [], ◌∷◌, Bytes, if◌then◌else◌}

-- a <= b on strings.
unfoldable pub leb_bytes : Bytes → Bytes → Bool
leb_bytes [] ys = true
leb_bytes (x ∷ xs) [] = false
leb_bytes (x ∷ xs) (y ∷ ys) = ltb x y || (x == y && leb_bytes xs ys)

unfoldable pub insert_sorted : Bytes → List Bytes → List Bytes
insert_sorted a [] = a ∷ []
insert_sorted a (b ∷ bs) = if leb_bytes a b then a ∷ b ∷ bs else b ∷ insert_sorted a bs

unfoldable pub sort_strings : List Bytes → List Bytes
unfolding insert_sorted
sort_strings [] = []
sort_strings (a ∷ rest) = insert_sorted a (sort_strings rest)
