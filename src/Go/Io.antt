-- ===== src/Go/Io.antt =====
-- A connection as the program sees it (net.Conn, a yamux stream), with io.ReadFull and Write.
use passage.Base.{
  ℕ, zero, suc, ◌<◌, ◌≡◌, [], ◌∷◌, ◌++◌, refl, leb, if◌then◌else◌, length, take, drop, Bytes,
  Result, ok, err, arith, length-append, take-append_length, drop-append_length,
}

-- `incoming` holds every byte that arrives before the peer closes or the deadline passes;
-- `outgoing` what was sent; after `writes_left` calls of Write the connection is broken.
pub record Conn : Type 0 where
  pub incoming : Bytes
  pub outgoing : Bytes
  pub writes_left : ℕ

pub data IoError : Type 0 where
  eof unexpected_eof write_failed : IoError

-- A computation on a connection that may fail with an error of type E. An error keeps the effects
-- on the connection that came before it.
abbrev pub M : Type 0 → Type 0 → Type 0
M E A = Conn → Result E A × Conn

infixl 5 ◌>>=◌ ◌>>◌
abbrev pub after : {E A B : Type 0} → (A → M E B) → Result E A × Conn → Result E B × Conn
after f (ok a, c) = f a c
after f (err e, c) = (err e, c)

abbrev pub ◌>>=◌ : {E A B : Type 0} → M E A → (A → M E B) → M E B
◌>>=◌ m f c = after f (m c)

abbrev pub ◌>>◌ : {E B : Type 0} → M E (Unit {0}) → M E B → M E B
◌>>◌ m k c = after (λ _. k) (m c)

-- A step that does not touch the connection.
abbrev pub pure : {E A : Type 0} → Result E A → M E A
pure r c = (r, c)

-- The error of a call, with its context.
abbrev pub on_result : {E F A : Type 0} → (E → F) → Result E A × Conn → Result F A × Conn
on_result f (ok a, c) = (ok a, c)
on_result f (err e, c) = (err (f e), c)

abbrev pub wrap : {E F A : Type 0} → (E → F) → M E A → M F A
wrap f m c = on_result f (m c)

-- w.Write(b), at the number of writes left.
unfoldable pub send : Bytes → Conn → ℕ → Result IoError (Unit {0}) × Conn
send b c zero = (err write_failed, c)
send b c (suc n) = (ok tt, record c { outgoing = c.outgoing ++ b; writes_left = n })

unfoldable pub write : Bytes → M IoError (Unit {0})
unfolding send
write b c = send b c c.writes_left

-- The error of io.ReadFull, by what had arrived.
unfoldable pub short_read : Bytes → IoError
short_read [] = eof
short_read (x ∷ xs) = unexpected_eof

-- io.ReadFull(r, buf) with len(buf) = n.
unfoldable pub read_full : ℕ → M IoError Bytes
unfolding short_read
read_full n c =
    if leb n (length c.incoming)
    then (ok (take n c.incoming), record c { incoming = drop n c.incoming })
    else (err (short_read c.incoming), record c { incoming = [] })

-- The bytes at hand are read whole, and what follows them is left.
pub read_full-append :
    (b r : Bytes) (c : Conn)
    → c.incoming ≡ b ++ r
    → read_full (length b) c ≡ (ok b, record c { incoming = r })
unfolding read_full
read_full-append b r c e =
    rw e (ground (arith, length-append b r, take-append_length b r, drop-append_length b r))

-- Too few bytes: an error, and nothing is left.
pub read_full_short :
    (n : ℕ) (c : Conn)
    → length c.incoming < n
    → read_full n c ≡ (err (short_read c.incoming), record c { incoming = [] })
unfolding read_full
read_full_short n c h = ground arith

-- A computation that succeeds has succeeded at each step.
pub after-eq-ok :
    {E A B : Type 0} (f : A → M E B) (r : Result E A × Conn) {b : B} {d : Conn}
    → after f r ≡ (ok b, d)
    → (a : A) × (c : Conn) × (r ≡ (ok a, c)) × (f a c ≡ (ok b, d))
after-eq-ok f (ok a, c) h = (a, c, refl, h)
after-eq-ok f (err e, c) h = cc

pub on_result-eq-ok :
    {E F A : Type 0} (f : E → F) (r : Result E A × Conn) {a : A} {d : Conn}
    → on_result f r ≡ (ok a, d)
    → r ≡ (ok a, d)
on_result-eq-ok f (ok a, c) h = ground arith
on_result-eq-ok f (err e, c) h = ground arith
