-- ===== src/Go/Endian.antt =====
-- encoding/binary: BigEndian.PutUint32, BigEndian.Uint32 and BigEndian.PutUint64.
use passage.Base.{ℕ, ◌+◌, ◌*◌, ◌/◌, ◌%◌, ◌^◌, ◌<◌, ◌≡◌, refl, [], ◌∷◌, ◌++◌, arith, Bytes}

unfoldable pub put_uint32 : ℕ → Bytes
put_uint32 v = (v / 2 ^ 24 % 256) ∷ (v / 2 ^ 16 % 256) ∷ (v / 2 ^ 8 % 256) ∷ (v % 256) ∷ []

-- The value of four bytes. Uint32 panics on fewer; the program never gives it fewer.
unfoldable pub uint32 : Bytes → ℕ
uint32 (a ∷ b ∷ c ∷ d ∷ rest) = a * 2 ^ 24 + b * 2 ^ 16 + c * 2 ^ 8 + d
uint32 _ = 0

unfoldable pub put_uint64 : ℕ → Bytes
unfolding put_uint32
put_uint64 v = put_uint32 (v / 2 ^ 32 % 2 ^ 32) ++ put_uint32 (v % 2 ^ 32)

pub uint32-put_uint32 : (v : ℕ) → v < 2 ^ 32 → uint32 (put_uint32 v) ≡ v
unfolding uint32 put_uint32
uint32-put_uint32 v h = omega arith

module _ (v w : ℕ) where
  pub put_uint32_injective :
      v < 2 ^ 32
      → w < 2 ^ 32
      → {r s : Bytes} → put_uint32 v ++ r ≡ put_uint32 w ++ s
      → (v ≡ w) × (r ≡ s)
  unfolding put_uint32
  put_uint32_injective h k e = ground arith

  pub put_uint64_injective :
      v < 2 ^ 64
      → w < 2 ^ 64
      → {r s : Bytes} → put_uint64 v ++ r ≡ put_uint64 w ++ s
      → (v ≡ w) × (r ≡ s)
  unfolding put_uint64
  put_uint64_injective h k e = ground arith

put_uint32_example : put_uint32 0x12345678 ≡ 0x12 ∷ 0x34 ∷ 0x56 ∷ 0x78 ∷ []
unfolding put_uint32
put_uint32_example = refl
