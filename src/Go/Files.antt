-- ===== src/Go/Files.antt =====
-- os.ReadFile and os.WriteFile on a file system.
use passage.Base.{
  ◌≡◌, Bool, Bytes, Map, Option, none, some, lookup, insert, lookup-insert, same_refl,
  if◌then◌else◌, arith,
}

-- `writable` tells at which paths a file may be written.
pub record Files : Type 0 where
  pub contents : Map Bytes
  pub writable : Bytes → Bool

unfoldable pub read_file : Files → Bytes → Option Bytes
read_file f path = lookup path f.contents

unfoldable pub write_file : Files → Bytes → Bytes → Option Files
write_file f path b =
    if f.writable path then some (record f { contents = insert path b f.contents }) else none

pub read_file-write_file :
    (f g : Files) (path b : Bytes) → write_file f path b ≡ some g → read_file g path ≡ some b
unfolding read_file write_file
read_file-write_file f g path b e =
    ground (arith, lookup-insert path path b f.contents, same_refl path)
