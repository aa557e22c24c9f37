-- ===== src/Proto/Framing/Limits.antt =====
-- The bounds that the framing keeps on every input and every connection.
use passage.Base.{
  ℕ, zero, suc, ◌+◌, ◌≤◌, ◌<◌, ◌≡◌, refl, sym, ◌∙◌, ap, Bytes, some, none, length, [], ◌++◌, ok,
  err, arith, take, drop, Result, length-append, Option-cases, inl, inr, ◌⊎◌, ltb, Bool-cases, List,
  ◌∷◌, false, leb, or_err,
}
use passage.Go.Endian.{put_uint32, uint32}
use passage.Go.Io.{Conn, read_full, M, on_result, after, pure, write_failed}
use passage.Proto.Messages.{max_message_size}
use passage.Proto.Framing.{
  Json, write_message, read_message, frame, message_too_large, ProtoError, marshal_failed,
  read_body, io, unmarshal_failed,
}
use mathlib.Core.List.{append_assoc, append-nil}

-- `d` is `c` after at most `n` bytes were read.
pub record Reads (n : ℕ) (c d : Conn) : Type 0 where
  pub taken : Bytes
  pub split : c.incoming ≡ taken ++ d.incoming
  pub bounded : length taken ≤ n
  pub outgoing_kept : d.outgoing ≡ c.outgoing
  pub writes_kept : d.writes_left ≡ c.writes_left

take-drop {ℓ} :
    {A : Type ℓ} (n : ℕ) (xs : List A) → (xs ≡ take n xs ++ drop n xs) × (length (take n xs) ≤ n)
take-drop zero xs = (refl, omega arith)
take-drop (suc n) [] = (refl, omega arith)
take-drop (suc n) (x ∷ xs) = (ap (◌∷◌ x) (take-drop n xs).0, omega (arith, (take-drop n xs).1))

read_full-Reads : (n : ℕ) (c : Conn) → Reads n c (read_full n c).1
unfolding read_full
read_full-Reads n c = elim (Bool-cases (leb n (length c.incoming))) [
  | inl e ↦ rw e (record {
    taken = take n c.incoming;
    split = (take-drop n c.incoming).0;
    bounded = (take-drop n c.incoming).1;
    outgoing_kept = refl;
    writes_kept = refl;
  })
  | inr e ↦ rw e (record {
    taken = c.incoming;
    split = sym (append-nil c.incoming);
    bounded = ground arith;
    outgoing_kept = refl;
    writes_kept = refl;
  })
]

Reads-trans : {n m : ℕ} {c d e : Conn} → Reads n c d → Reads m d e → Reads (n + m) c e
Reads-trans {c} {d} {e} r s = record {
  taken = r.taken ++ s.taken;
  split = r.split ∙ ap (◌++◌ r.taken) s.split ∙ sym (append_assoc r.taken s.taken e.incoming);
  bounded = rw length-append (omega (arith, r.bounded, s.bounded));
  outgoing_kept = s.outgoing_kept ∙ r.outgoing_kept;
  writes_kept = s.writes_kept ∙ r.writes_kept;
}

Reads-mono : {n m : ℕ} {c d : Conn} → n ≤ m → Reads n c d → Reads m c d
Reads-mono h r = record {
  taken = r.taken;
  split = r.split;
  bounded = omega (arith, r.bounded, h);
  outgoing_kept = r.outgoing_kept;
  writes_kept = r.writes_kept;
}

Reads-refl : (c : Conn) → Reads 0 c c
Reads-refl c = record {
  taken = [];
  split = refl;
  bounded = omega arith;
  outgoing_kept = refl;
  writes_kept = refl;
}

wrap-Reads :
    {E F A : Type 0} {n : ℕ} {c : Conn} (f : E → F) (r : Result E A × Conn)
    → Reads n c r.1
    → Reads n c (on_result f r).1
wrap-Reads f (ok a, d) h = h
wrap-Reads f (err e, d) h = h

bind-Reads :
    {E A B : Type 0} {n : ℕ} {c : Conn} (k : ℕ) (r : Result E A × Conn) (f : A → M E B)
    → Reads n c r.1
    → ((a : A) (d : Conn) → Reads k d (f a d).1)
    → Reads (n + k) c (after f r).1
bind-Reads k (ok a, d) f h next = Reads-trans h (next a d)
bind-Reads k (err e, d) f h next = Reads-mono (omega arith) h

module _ {A : Type 0} (j : Json A) where
  abbrev pub Outcome : A → Conn → Result ProtoError (Unit {0}) × Conn → Type 0
  Outcome v c r =
      ((body : Bytes) × (j.marshal v ≡ some body)
        × (length body ≤ max_message_size)
        × (2 ≤ c.writes_left)
        × (r.0 ≡ ok tt)
        × (r.1.outgoing ≡ c.outgoing ++ frame body))
      ⊎ ((j.marshal v ≡ none) × (r ≡ (err marshal_failed, c)))
      ⊎ ((body : Bytes) × (j.marshal v ≡ some body)
          × (max_message_size < length body)
          × (r ≡ (err message_too_large, c)))
      ⊎ ((body : Bytes) × (j.marshal v ≡ some body)
          × (c.writes_left < 2)
          × (r.0 ≡ err (io write_failed))
          × ((r.1.outgoing ≡ c.outgoing) ⊎ (r.1.outgoing ≡ c.outgoing ++ put_uint32 (length body))))

  read_body-Reads : (n : ℕ) (c : Conn) → Reads max_message_size c (read_body j n c).1
  unfolding read_body
  read_body-Reads n c = elim (Bool-cases (ltb max_message_size n)) [
    | inl e ↦ rw e (Reads-mono (omega arith) (Reads-refl c))
    | inr e ↦ rw e (
        Reads-mono (ground arith) (
          bind-Reads 0 (on_result io (read_full n c))
            (λ b. pure (or_err (j.unmarshal b) unmarshal_failed))
            (wrap-Reads io (read_full n c) (read_full-Reads n c)) (λ a d. Reads-refl d)))
  ]

  -- However a message announces itself, and whatever the outcome, at most 4 + 64 Ki bytes are taken
  -- from the connection, in order, and nothing is sent.
  pub read_message-Reads : (c : Conn) → Reads (4 + max_message_size) c (read_message j c).1
  unfolding read_message
  read_message-Reads c =
      bind-Reads max_message_size (on_result io (read_full 4 c)) (λ hdr. read_body j (uint32 hdr))
        (wrap-Reads io (read_full 4 c) (read_full-Reads 4 c))
        (λ hdr d. read_body-Reads (uint32 hdr) d)

  sent :
      (v : A) (body : Bytes) (c : Conn)
      → j.marshal v ≡ some body
      → ltb max_message_size (length body) ≡ false
      → (n : ℕ) → c.writes_left ≡ n
      → Outcome v c (write_message j v c)
  unfolding write_message frame
  sent v body c e small zero w =
      inr (inr (inr (body, e, ground arith, ground arith, inl (ground arith))))
  sent v body c e small (suc zero) w =
      inr (inr (inr (body, e, ground arith, ground arith, inr (ground arith))))
  sent v body c e small (suc (suc n)) w = inl (
    body,
    e,
    ground arith,
    ground arith,
    ground arith,
    ground (arith, append_assoc c.outgoing (put_uint32 (length body)) body),
  )

  -- What write_message does on each branch: a frame is added only if it was sent whole; a message that cannot be
  -- encoded, or is larger than 64 KiB, sends nothing; and after a failed write at most the header went out.
  pub write_message_cases : (v : A) (c : Conn) → Outcome v c (write_message j v c)
  unfolding write_message frame
  write_message_cases v c = elim (Option-cases (j.marshal v)) [
    | inl e ↦ inr (inl (e, rw e))
    | inr (body, e) ↦ elim (Bool-cases (ltb max_message_size (length body))) [
      | inl big ↦ inr (inr (inl (body, e, ground arith, rw (e, big))))
      | inr small ↦ sent v body c e small c.writes_left refl
    ]
  ]
