-- ===== src/Go/Quote.antt =====
-- strconv.Quote, as the verb %q calls it. A byte of a rune beyond ASCII stands for itself, as it does where the rune is printable.
use passage.Base.{ℕ, ◌/◌, ◌%◌, ◌==◌, ltb, leb, ◌&&◌, Bytes, [], ◌∷◌, ◌++◌, if◌then◌else◌}
use passage.Go.Hex.{hex_digit}

-- The letters of the escapes \a to \r.
abbrev letter : ℕ → ℕ
letter c =
    if c == 7
    then b'a'
    else if c == 8
    then b'b'
    else if c == 9
    then b't'
    else if c == 10
    then b'n'
    else if c == 11
    then b'v'
    else if c == 12
    then b'f'
    else b'r'

unfoldable pub quote_byte : ℕ → Bytes
unfolding hex_digit
quote_byte c =
    if c == 34
    then 92 ∷ 34 ∷ []
    else if c == 92
    then 92 ∷ 92 ∷ []
    else if leb 7 c && leb c 13
    then 92 ∷ letter c ∷ []
    else if ltb c 32
    then 92 ∷ b'x' ∷ hex_digit (c / 16) ∷ hex_digit (c % 16) ∷ []
    else if c == 127
    then 92 ∷ b'x' ∷ b'7' ∷ b'f' ∷ []
    else c ∷ []

unfoldable pub quote_bytes : Bytes → Bytes
unfolding quote_byte
quote_bytes [] = []
quote_bytes (c ∷ rest) = quote_byte c ++ quote_bytes rest

unfoldable pub quote : Bytes → Bytes
unfolding quote_bytes
quote s = 34 ∷ (quote_bytes s ++ 34 ∷ [])
