-- ===== src/Go/Path.antt =====
-- filepath.Clean of package path/filepath, for paths with slashes.
use passage.Base.{
  ℕ, Bytes, List, [], ◌∷◌, ◌++◌, Bool, false, ◌==◌, same, codes, is_empty, if◌then◌else◌, ◌≡◌, refl,
}

-- The elements between the slashes.
abbrev extend : ℕ → List Bytes → List Bytes
extend c [] = (c ∷ []) ∷ []
extend c (e ∷ rest) = (c ∷ e) ∷ rest

unfoldable pub elements : Bytes → List Bytes
elements [] = [] ∷ []
elements (c ∷ s) = let rest = elements s in if c == 47 then [] ∷ rest else extend c rest

-- `..` after the elements that were kept, the last one first.
unfoldable pub go_up : Bool → List Bytes → List Bytes
go_up rooted [] = if rooted then [] else codes ".." ∷ []
go_up rooted (e ∷ kept) = if same e (codes "..") then codes ".." ∷ e ∷ kept else kept

unfoldable pub keep_elements : Bool → List Bytes → List Bytes → List Bytes
unfolding go_up
keep_elements rooted kept [] = kept
keep_elements rooted kept (e ∷ rest) =
    keep_elements rooted
      (if is_empty e
        then kept
        else if same e (codes ".")
        then kept
        else if same e (codes "..")
        then go_up rooted kept
        else e ∷ kept)
      rest

-- The elements in their order, with slashes between them, before `path`.
unfoldable pub rejoin : List Bytes → Bytes → Bytes
rejoin [] path = path
rejoin (e ∷ kept) path = rejoin kept (if is_empty path then e else e ++ (codes "/" ++ path))

abbrev is_rooted : Bytes → Bool
is_rooted [] = false
is_rooted (c ∷ s) = c == 47

abbrev or_dot : Bytes → Bytes
or_dot path = if is_empty path then codes "." else path

unfoldable pub clean : Bytes → Bytes
unfolding elements keep_elements rejoin
clean path =
    let rest = rejoin (keep_elements (is_rooted path) [] (elements path)) [] in
    if is_rooted path then codes "/" ++ rest else or_dot rest

relative : clean (codes "./deploy/../out//x/.") ≡ codes "out/x"
unfolding clean elements keep_elements rejoin go_up same
relative = refl

above : (clean (codes "../a/../..") ≡ codes "../..") × (clean (codes "/../a") ≡ codes "/a")
unfolding clean elements keep_elements rejoin go_up same
above = (refl, refl)

empty : clean [] ≡ codes "."
unfolding clean elements keep_elements rejoin
empty = refl
