-- ===== src/Go/HostPort.antt =====
-- net.SplitHostPort.
mod Examples
use passage.Base.{
  ℕ, zero, suc, ◌+◌, ◌==◌, List, [], ◌∷◌, length, take, drop, Bytes, Option, none, some, Result, ok,
  err, if◌then◌else◌, codes, ◌-◌, ◌≡◌,
}

pub data AddrError : Type 0 where
  missing_port too_many_colons missing_bracket unexpected_open unexpected_close : AddrError

-- The position of the first byte `b`.
unfoldable pub index_byte : ℕ → Bytes → Option ℕ
index_byte b [] = none
index_byte b (x ∷ xs) =
    if x == b then some 0 else (elim (index_byte b xs) [ some i ↦ some (suc i) | none ↦ none ])

-- The position of the last byte `b`.
unfoldable pub last_index_byte : ℕ → Bytes → Option ℕ
last_index_byte b [] = none
last_index_byte b (x ∷ xs) = elim (last_index_byte b xs) [
  | some i ↦ some (suc i)
  | none ↦ if x == b then some 0 else none
]

-- The byte at a position.
unfoldable pub byte_at : Bytes → ℕ → Option ℕ
byte_at [] i = none
byte_at (x ∷ xs) zero = some x
byte_at (x ∷ xs) (suc i) = byte_at xs i

-- The tests on stray brackets, and the result: `j` and `k` are where '[' and ']' may first stand.
unfoldable pub finish : Bytes → ℕ → Bytes → ℕ → ℕ → Result AddrError (Bytes × Bytes)
unfolding index_byte
finish hostport i host j k = elim (index_byte b'[' (drop j hostport)) [
  | some _ ↦ err unexpected_open
  | none ↦ elim (index_byte b']' (drop k hostport)) [
    | some _ ↦ err unexpected_close
    | none ↦ ok (host, drop (i + 1) hostport)
  ]
]

-- The first ']' of "[host]:port", at `end`, has to stand right before the last colon, at `i`.
unfoldable pub bracketed : Bytes → ℕ → Option ℕ → Result AddrError (Bytes × Bytes)
unfolding finish byte_at
bracketed hostport i none = err missing_bracket
bracketed hostport i (some end) =
    if end + 1 == length hostport
    then err missing_port
    else if end + 1 == i
    then finish hostport i (take (end - 1) (drop 1 hostport)) 1 (end + 1)
    else elim (byte_at hostport (end + 1)) [
      | some c ↦ if c == b':' then err too_many_colons else err missing_port
      | none ↦ err missing_port
    ]

unfoldable pub unbracketed : Bytes → ℕ → Result AddrError (Bytes × Bytes)
unfolding finish index_byte
unbracketed hostport i = elim (index_byte b':' (take i hostport)) [
  | some _ ↦ err too_many_colons
  | none ↦ finish hostport i (take i hostport) 0 0
]

-- The two halves, by the first byte and the position of the last colon.
unfoldable pub split_at : Bytes → Option ℕ → Result AddrError (Bytes × Bytes)
unfolding bracketed unbracketed index_byte
split_at hostport none = err missing_port
split_at [] (some i) = err missing_port
split_at (c ∷ rest) (some i) =
    if c == b'['
    then bracketed (c ∷ rest) i (index_byte b']' (c ∷ rest))
    else unbracketed (c ∷ rest) i

unfoldable pub split_host_port : Bytes → Result AddrError (Bytes × Bytes)
unfolding split_at last_index_byte
split_host_port hostport = split_at hostport (last_index_byte b':' hostport)
