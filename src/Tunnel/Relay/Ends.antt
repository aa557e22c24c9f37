-- ===== src/Tunnel/Relay/Ends.antt =====
-- That a relay ends: each step brings it nearer to its end, and it is never stuck before.
use passage.Tunnel.Relay.{
  Direction, State, Network, Phase, reading, holding, copied, finished, Cause, Move, read, eof,
  read_fails, write, write_fails, Step, up_copies, down_copies, up_closes, down_closes, Reach, here,
  next, start, IsFinished,
}
use passage.Base.{
  ◌≡◌, ◌⊎◌, ℕ, Bytes, [], ◌∷◌, arith, refl, Bool, true, false, inl, ◌*◌, ◌+◌, ◌<◌, ap, inr, length,
  ◌≤◌, length-append, List, Bool-cases,
}

-- Steps that a direction has left at most.
weight : Phase → ℕ
weight reading = 2
weight (holding c) = 3
weight (copied w) = 1
weight (finished w) = 0

left : Direction → ℕ
left d = 2 * length d.pending + weight d.phase

measure : State → ℕ
measure s = left s.up + left s.down

Move-left : {sc se sb dc db : Bool} {d e : Direction} → Move sc se sb dc db d e → left e < left d
unfolding left weight
Move-left (read d [] rest ph e ne _) = absurd (ne refl)
Move-left (read d (x ∷ chunk) rest ph e ne _) =
    ground (arith, ap length e, length-append (x ∷ chunk) rest)
Move-left (eof d ph e _ _) = ground arith
Move-left (read_fails d ph _) = ground arith
Move-left (write d chunk ph _) = ground arith
Move-left (write_fails d part lost ph _) = ground arith

Step-measure : {n : Network} {s t : State} → Step n s t → measure t < measure s
unfolding measure
Step-measure (up_copies s d m) = omega (arith, Move-left m)
Step-measure (down_copies s d m) = omega (arith, Move-left m)
Step-measure (up_closes s w e) = unfold left weight in ground arith
Step-measure (down_closes s w e) = unfold left weight in ground arith

Reach-measure : {n : Network} {s t : State} {k : ℕ} → Reach n s k t → k + measure t ≤ measure s
Reach-measure here = omega arith
Reach-measure (next r st) = omega (arith, Reach-measure r, Step-measure st)

List-cases {ℓ} : {A : Type ℓ} (l : List A) → (l ≡ []) ⊎ ((x : A) × (xs : List A) × (l ≡ x ∷ xs))
List-cases [] = inl refl
List-cases (x ∷ xs) = inr (x, xs, refl)

-- A direction that is not finished can go on, or it waits for a silent peer.
record IsBlocked (sc se sb : Bool) : Type 0 where
  still_open : sc ≡ false
  silent : se ≡ false
  whole : sb ≡ false

data Progress (sc se sb dc db : Bool) (d : Direction) (f : Phase) : Type 0 where
  is_over : IsFinished f → Progress sc se sb dc db d f
  closes : (w : Cause) → f ≡ copied w → Progress sc se sb dc db d f
  moves : (e : Direction) → Move sc se sb dc db d e → Progress sc se sb dc db d f
  blocks : IsBlocked sc se sb → Progress sc se sb dc db d f

reading-Progress :
    (se sb dc db : Bool) (d : Direction) → d.phase ≡ reading → Progress false se sb dc db d reading
reading-Progress se true dc db d e = moves _ (read_fails d e (inr refl))
reading-Progress se false dc db d e = elim (List-cases d.pending) [
  | inl none_left ↦ elim (Bool-cases se) [
    | inl ends ↦ moves _ (eof d e none_left ends refl)
    | inr silent ↦ blocks (record { still_open = refl; silent = silent; whole = refl })
  ]
  | inr (x, xs, more) ↦ moves _ (read d (x ∷ []) xs e more (λ h. cc) refl)
]

Move-Progress :
    (sc se sb dc db : Bool) (d : Direction) (f : Phase) → d.phase ≡ f → Progress sc se sb dc db d f
Move-Progress sc se sb dc db d (finished w) e = is_over tt
Move-Progress sc se sb dc db d (copied w) e = closes w refl
Move-Progress true se sb dc db d reading e = moves _ (read_fails d e (inl refl))
Move-Progress false se sb dc db d reading e = reading-Progress se sb dc db d e
Move-Progress sc se sb true db d (holding c) e = moves _ (write_fails d [] c e (inl refl))
Move-Progress sc se sb false db d (holding c) e = moves _ (write d c e refl)

-- A goroutine that is finished has closed the connection that it wrote to, from which the other one reads.
record Closed (s : State) : Type 0 where
  by_up : IsFinished s.up.phase → s.b_closed ≡ true
  by_down : IsFinished s.down.phase → s.a_closed ≡ true

Move-finished :
    {sc se sb dc db : Bool} {d e : Direction} → Move sc se sb dc db d e → IsFinished e.phase → ⊥
Move-finished (read d chunk rest ph e ne c) h = h
Move-finished (eof d ph e _ c) h = h
Move-finished (read_fails d ph c) h = h
Move-finished (write d chunk ph c) h = h
Move-finished (write_fails d part lost ph c) h = h

Reach-Closed : {n : Network} {p q : Bytes} {k : ℕ} {s : State} → Reach n (start p q) k s → Closed s
Reach-Closed here = record { by_up = λ h. absurd h; by_down = λ h. absurd h }
Reach-Closed (next r (up_copies s d m)) = record {
  by_up = λ h. absurd (Move-finished m h);
  by_down = (Reach-Closed r).by_down;
}
Reach-Closed (next r (down_copies s d m)) = record {
  by_up = (Reach-Closed r).by_up;
  by_down = λ h. absurd (Move-finished m h);
}
Reach-Closed (next r (up_closes s w e)) = record {
  by_up = λ h. refl;
  by_down = (Reach-Closed r).by_down;
}
Reach-Closed (next r (down_closes s w e)) = record {
  by_up = (Reach-Closed r).by_up;
  by_down = λ h. refl;
}

-- Something ends the relay: a peer that ends, or a connection that breaks.
abbrev pub IsStirred : Network → Type 0
IsStirred n = ((n.a_ends ≡ true) ⊎ (n.a_breaks ≡ true)) ⊎ ((n.b_ends ≡ true) ⊎ (n.b_breaks ≡ true))

State-next :
    (n : Network) (s : State)
    → IsStirred n
    → Closed s
    → (IsFinished s.up.phase × IsFinished s.down.phase) ⊎ ((t : State) × Step n s t)
State-next n s stirred c =
    elim (Move-Progress s.a_closed n.a_ends n.a_breaks s.b_closed n.b_breaks s.up s.up.phase refl) [
      | closes w e ↦ inr (_, up_closes s w e)
      | moves d m ↦ inr (_, up_copies s d m)
      | is_over f ↦
          elim (Move-Progress s.b_closed n.b_ends n.b_breaks s.a_closed n.a_breaks s.down
            s.down.phase refl) [
              | closes w e ↦ inr (_, down_closes s w e)
              | moves d m ↦ inr (_, down_copies s d m)
              | is_over g ↦ inl (f, g)
              | blocks i ↦ absurd (ground (arith, c.by_up f, i.still_open))
            ]
      | blocks i ↦
          elim (Move-Progress s.b_closed n.b_ends n.b_breaks s.a_closed n.a_breaks s.down
            s.down.phase refl) [
              | closes w e ↦ inr (_, down_closes s w e)
              | moves d m ↦ inr (_, down_copies s d m)
              | is_over g ↦ absurd (ground (arith, c.by_down g, i.still_open))
              | blocks j ↦ absurd (ground (arith, i.silent, i.whole, j.silent, j.whole))
            ]
    ]

-- A relay of inputs p and q of which one is ended by its peer, or one of whose connections breaks, ends, also if the other peer stays
-- silent for ever: no run of it has more than 2 |p| + 2 |q| + 4 steps, and while one of its goroutines is not finished it can make a
-- step.
pub relay_ends :
    {n : Network} {p q : Bytes} {k : ℕ} {s : State}
    → IsStirred n
    → Reach n (start p q) k s
    → (k ≤ 2 * length p + 2 * length q + 4)
      × ((IsFinished s.up.phase × IsFinished s.down.phase) ⊎ ((t : State) × Step n s t))
relay_ends {n} {s} stirred r = (
  unfold measure left weight in omega (arith, Reach-measure r),
  State-next n s stirred (Reach-Closed r),
)
