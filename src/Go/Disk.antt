-- ===== src/Go/Disk.antt =====
-- What the program uses of the directories of a file system: os.Stat, os.RemoveAll, os.MkdirAll, os.WriteFile and os.Chmod.
-- A call that changes the disk is a computation on it, which keeps its effects when it fails.
use mathlib.Core.List.{append_assoc}
use passage.Base.{
  Bool, false, not, ◌||◌, Bytes, List, [], ◌∷◌, ◌++◌, Map, Option, none, some, lookup, same,
  has_prefix, codes, Result, ok, err, if◌then◌else◌, true, ℕ, ◌≡◌, arith, Bool-cases, ◌&&◌, ◌==◌,
  inl, ap, same→eq, inr,
}
use passage.Go.Files.{Files, write_file}

-- The files and the directories, by their paths, and which calls the operating system refuses. After a failed
-- RemoveAll the entries that `remains` tells are still there.
pub record Disk : Type 0 where
  pub files : Files
  pub dirs : List Bytes
  pub stat_fails : Bytes → Bool
  pub removable : Bytes → Bool
  pub remains : Bytes → Bool
  pub creatable : Bytes → Bool
  pub chmodable : Bytes → Bool

pub data DiskError : Type 0 where
  not_statted not_removed not_created not_written not_chmodded : DiskError

abbrev pub M : Type 0 → Type 0 → Type 0
M E A = Disk → Result E A × Disk

infixl 5 ◌>>=◌ ◌>>◌
abbrev pub and_then : {E A B : Type 0} → (A → M E B) → Result E A × Disk → Result E B × Disk
and_then f (ok a, d) = f a d
and_then f (err e, d) = (err e, d)

abbrev pub ◌>>=◌ : {E A B : Type 0} → M E A → (A → M E B) → M E B
◌>>=◌ m f d = and_then f (m d)

abbrev pub ◌>>◌ : {E B : Type 0} → M E (Unit {0}) → M E B → M E B
◌>>◌ m k d = and_then (λ _. k) (m d)

-- A step that does not touch the disk.
abbrev pub pure : {E A : Type 0} → Result E A → M E A
pure r d = (r, d)

-- What filepath.Join puts in front of a name, for a cleaned path.
unfoldable pub below : Bytes → Bytes
below dir =
    if same dir (codes ".") then [] else if same dir (codes "/") then dir else dir ++ codes "/"

-- filepath.Join of a cleaned path and a name.
unfoldable pub join : Bytes → Bytes → Bytes
join dir name = below dir ++ name

-- The path is `dir` or lies below it, for relative paths if `dir` is `.`.
unfoldable pub is_under : Bytes → Bytes → Bool
is_under dir path = same dir path || has_prefix (below dir) path

-- More than one byte.
abbrev pub is_long : Bytes → Bool
is_long (x ∷ y ∷ s) = true
is_long _ = false

same-append-single : (o s : Bytes) (c : ℕ) → is_long s ≡ true → same (o ++ s) (c ∷ []) ≡ false
unfolding same
same-append-single o [] c h = absurd (cc)
same-append-single o (x ∷ []) c h = absurd (cc)
same-append-single [] (x ∷ y ∷ s) c h = ground arith
same-append-single (a ∷ []) (x ∷ y ∷ s) c h = ground arith
same-append-single (a ∷ b ∷ o) (x ∷ y ∷ s) c h = ground arith

-- A path that ends in a name of more than one byte is neither `.` nor `/`.
pub below-join :
    (dir name : Bytes)
    → is_long name ≡ true
    → below (join dir name) ≡ below dir ++ (name ++ codes "/")
unfolding below join
below-join dir name h = ground (
  arith,
  same-append-single (below dir) name 46 h,
  same-append-single (below dir) name 47 h,
  append_assoc (below dir) name (codes "/"),
)

pub data Stat : Type 0 where
  is_dir is_file is_absent unknown : Stat

unfoldable pub mem : Bytes → List Bytes → Bool
mem p [] = false
mem p (q ∷ rest) = same q p || mem p rest

abbrev stat_file : Option Bytes → Stat
stat_file none = is_absent
stat_file (some b) = is_file

unfoldable pub stat : Disk → Bytes → Stat
unfolding mem
stat d path =
    if d.stat_fails path
    then unknown
    else if mem path d.dirs
    then is_dir
    else stat_file (lookup path d.files.contents)

-- The entries of a map that are kept.
unfoldable pub keep_files : (Bytes → Bool) → Map Bytes → Map Bytes
keep_files kept [] = []
keep_files kept ((p, b) ∷ rest) =
    if kept p then (p, b) ∷ keep_files kept rest else keep_files kept rest

unfoldable pub keep_dirs : (Bytes → Bool) → List Bytes → List Bytes
keep_dirs kept [] = []
keep_dirs kept (p ∷ rest) = if kept p then p ∷ keep_dirs kept rest else keep_dirs kept rest

unfoldable pub keep : (Bytes → Bool) → Disk → Disk
unfolding keep_files keep_dirs
keep kept d = record d {
  files = record d.files { contents = keep_files kept d.files.contents };
  dirs = keep_dirs kept d.dirs;
}

unfoldable pub remove_all : Bytes → M DiskError (Unit {0})
unfolding keep is_under
remove_all path d =
    if d.removable path
    then (ok tt, keep (λ p. not (is_under path p)) d)
    else (err not_removed, keep (λ p. not (is_under path p) || d.remains p) d)

-- Of the directories that MkdirAll creates, the last is recorded.
unfoldable pub mkdir_all : Bytes → M DiskError (Unit {0})
mkdir_all path d =
    if d.creatable path then (ok tt, record d { dirs = path ∷ d.dirs }) else (err not_created, d)

-- The name of an entry of a directory.
unfoldable pub is_name : Bytes → Bool
is_name [] = true
is_name (c ∷ s) = not (c == 47) && is_name s

-- The path is the first one and a name.
unfoldable pub is_entry_below : Bytes → Bytes → Bool
unfolding is_name
is_entry_below [] path = is_name path
is_entry_below (c ∷ dir) [] = false
is_entry_below (c ∷ dir) (x ∷ path) = let rest = is_entry_below dir path in (c == x) && rest

-- One of the directories is the one that holds the path.
unfoldable pub has_dir : List Bytes → Bytes → Bool
unfolding is_entry_below below
has_dir [] path = false
has_dir (dir ∷ dirs) path = is_entry_below (below dir) path || has_dir dirs path

pub is_entry_below-append :
    (dir name : Bytes) → is_name name ≡ true → is_entry_below dir (dir ++ name) ≡ true
unfolding is_entry_below
is_entry_below-append [] name h = h
is_entry_below-append (c ∷ dir) name h = ground (arith, is_entry_below-append dir name h)

-- A file of a directory that is there can be written.
pub has_dir-join :
    (dir name : Bytes) (dirs : List Bytes)
    → is_name name ≡ true
    → mem dir dirs ≡ true
    → has_dir dirs (join dir name) ≡ true
unfolding has_dir mem join
has_dir-join dir name [] h m = absurd (cc)
has_dir-join dir name (d ∷ dirs) h m = elim (Bool-cases (same d dir)) [
  | inl here ↦ ground (
    arith,
    is_entry_below-append (below dir) name h,
    ap (λ p. is_entry_below (below p) (below dir ++ name)) (same→eq d dir here),
  )
  | inr away ↦ ground (arith, has_dir-join dir name dirs h)
]

-- The files, as os.WriteFile can write them: where the directory is there.
abbrev pub files_of : Disk → Files
files_of d = record d.files { writable = λ p. d.files.writable p && has_dir d.dirs p }

abbrev pub with_contents : Disk → Map Bytes → Disk
with_contents d m = record d { files = record d.files { contents = m } }

-- A failed WriteFile may have created the file or cut it off; here it leaves the old content.
abbrev after_write : Disk → Option Files → Result DiskError (Unit {0}) × Disk
after_write d (some f) = (ok tt, with_contents d f.contents)
after_write d none = (err not_written, d)

unfoldable pub write : Bytes → Bytes → M DiskError (Unit {0})
unfolding write_file has_dir
write path b d = after_write d (write_file (files_of d) path b)

-- The mode of a file is not recorded.
unfoldable pub chmod : Bytes → M DiskError (Unit {0})
chmod path d = (if d.chmodable path then ok tt else err not_chmodded, d)
