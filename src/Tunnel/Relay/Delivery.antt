-- ===== src/Tunnel/Relay/Delivery.antt =====
-- What arrives at each end of a relay.
use passage.Tunnel.Relay.{
  Direction, State, Network, Phase, reading, holding, copied, finished, Cause, at_eof, read_failed,
  write_failed, Move, read, eof, read_fails, write, write_fails, Step, up_copies, down_copies,
  up_closes, down_closes, Reach, here, next, start, IsFinished,
}
use mathlib.Core.List.{append-nil, append_assoc}
use passage.Base.{
  ◌≡◌, ◌⊎◌, ℕ, Bytes, [], ◌++◌, refl, Bool, true, false, subst, ◌∙◌, ap, inr, sym, inl,
}

-- What has been sent and what may still come make up the input `p`. After the end of the input all of it was sent.
abbrev Whole : Bytes → Direction → Phase → Type 0
Whole p d reading = p ≡ d.sent ++ d.pending
Whole p d (holding chunk) = p ≡ d.sent ++ (chunk ++ d.pending)
Whole p d (copied at_eof) = p ≡ d.sent
Whole p d (finished at_eof) = p ≡ d.sent
Whole p d _ = (rest : Bytes) × (p ≡ d.sent ++ rest)

Move-Whole :
    {sc se sb dc db : Bool} {d e : Direction} (p : Bytes)
    → Move sc se sb dc db d e
    → Whole p d d.phase
    → Whole p e e.phase
Move-Whole p (read d chunk rest ph e _ _) w = subst (Whole p d) ph w ∙ ap (λ r. d.sent ++ r) e
Move-Whole p (eof d ph e _ _) w =
    subst (Whole p d) ph w ∙ ap (λ r. d.sent ++ r) e ∙ append-nil d.sent
Move-Whole p (read_fails d ph _) w = (d.pending, subst (Whole p d) ph w)
Move-Whole p (write d chunk ph _) w =
    subst (Whole p d) ph w ∙ sym (append_assoc d.sent chunk d.pending)
Move-Whole p (write_fails d part lost ph _) w =
    (lost ++ d.pending, subst (Whole p d) ph w ∙ (simp append_assoc))

Whole-closed :
    (p : Bytes) (d : Direction) (w : Cause)
    → d.phase ≡ copied w
    → Whole p d d.phase
    → Whole p (record d { phase = finished w }) (finished w)
Whole-closed p d at_eof e h = subst (Whole p d) e h
Whole-closed p d read_failed e h = subst (Whole p d) e h
Whole-closed p d write_failed e h = subst (Whole p d) e h

record Inv (p q : Bytes) (s : State) : Type 0 where
  up_whole : Whole p s.up s.up.phase
  down_whole : Whole q s.down s.down.phase

Step-Inv : {n : Network} {p q : Bytes} {s t : State} → Step n s t → Inv p q s → Inv p q t
Step-Inv {p} {q} (up_copies s d m) i = record {
  up_whole = Move-Whole p m i.up_whole;
  down_whole = i.down_whole;
}
Step-Inv {p} {q} (down_copies s d m) i = record {
  up_whole = i.up_whole;
  down_whole = Move-Whole q m i.down_whole;
}
Step-Inv {p} {q} (up_closes s w e) i = record {
  up_whole = Whole-closed p s.up w e i.up_whole;
  down_whole = i.down_whole;
}
Step-Inv {p} {q} (down_closes s w e) i = record {
  up_whole = i.up_whole;
  down_whole = Whole-closed q s.down w e i.down_whole;
}

Reach-Inv : {n : Network} {p q : Bytes} {k : ℕ} {s : State} → Reach n (start p q) k s → Inv p q s
Reach-Inv here = record { up_whole = refl; down_whole = refl }
Reach-Inv (next r st) = Step-Inv st (Reach-Inv r)

Whole-prefix :
    (p : Bytes) (d : Direction) (f : Phase) → Whole p d f → (rest : Bytes) × (p ≡ d.sent ++ rest)
Whole-prefix p d reading w = (d.pending, w)
Whole-prefix p d (holding chunk) w = (chunk ++ d.pending, w)
Whole-prefix p d (copied at_eof) w = ([], w ∙ sym (append-nil d.sent))
Whole-prefix p d (copied read_failed) w = w
Whole-prefix p d (copied write_failed) w = w
Whole-prefix p d (finished at_eof) w = ([], w ∙ sym (append-nil d.sent))
Whole-prefix p d (finished read_failed) w = w
Whole-prefix p d (finished write_failed) w = w

-- Whatever the interleaving and whatever fails, each end has been sent a prefix of what came from the other.
pub relay_prefix :
    {n : Network} {p q : Bytes} {k : ℕ} {s : State}
    → Reach n (start p q) k s
    → ((rest : Bytes) × (p ≡ s.up.sent ++ rest)) × ((rest : Bytes) × (q ≡ s.down.sent ++ rest))
relay_prefix {p} {q} {s} r =
    let i = Reach-Inv r in
    (Whole-prefix p s.up s.up.phase i.up_whole, Whole-prefix q s.down s.down.phase i.down_whole)

-- io.Copy returned before the end of its input.
abbrev Fails : Phase → Type 0
Fails (copied at_eof) = ⊥
Fails (finished at_eof) = ⊥
Fails (copied w) = Unit
Fails (finished w) = Unit
Fails _ = ⊥

-- The destination was closed after the end of the input.
abbrev IsDone : Phase → Type 0
IsDone (finished at_eof) = Unit
IsDone _ = ⊥

finished-cases : (f : Phase) → IsFinished f → Fails f ⊎ IsDone f
finished-cases (finished at_eof) h = inr tt
finished-cases (finished read_failed) h = inl tt
finished-cases (finished write_failed) h = inl tt
finished-cases reading h = absurd h
finished-cases (holding c) h = absurd h
finished-cases (copied w) h = absurd h

-- The destination is closed by the goroutine that writes to it, when it is finished; and where no connection breaks, this
-- goroutine fails only after the other is done.
record Order (dst_closed : Bool) (mine other : Phase) : Type 0 where
  closed : dst_closed ≡ true → IsFinished mine
  after : Fails mine → IsDone other

-- From a phase in which the goroutine is not done, to one in which it has not failed.
Order-on :
    {sc dc : Bool} (a b f : Phase)
    → (IsFinished a → ⊥)
    → (IsDone a → ⊥)
    → (Fails b → IsDone f)
    → Order dc a f × Order sc f a
    → Order dc b f × Order sc f b
Order-on a b f open_yet busy fine (m, o) = (
  record { closed = λ e. absurd (open_yet (m.closed e)); after = fine },
  record { closed = o.closed; after = λ h. absurd (busy (o.after h)) },
)

Move-Order :
    {sc se dc : Bool} {d e : Direction} (f : Phase)
    → Move sc se false dc false d e
    → Order dc d.phase f × Order sc f d.phase
    → Order dc e.phase f × Order sc f e.phase
Move-Order {sc} {dc} f (read d chunk rest ph e ne c) mo =
    Order-on reading (holding chunk) f (λ h. h) (λ h. h) (λ h. absurd h)
      (subst (λ g. Order dc g f × Order sc f g) ph mo)
Move-Order {sc} {dc} f (eof d ph e _ c) mo =
    Order-on reading (copied at_eof) f (λ h. h) (λ h. h) (λ h. absurd h)
      (subst (λ g. Order dc g f × Order sc f g) ph mo)
Move-Order {sc} {dc} f (read_fails d ph (inr c)) mo = cc
Move-Order {sc} {dc} f (read_fails d ph (inl c)) mo =
    let (m, o) = subst (λ g. Order dc g f × Order sc f g) ph mo in
    Order-on reading (copied read_failed) f (λ h. h) (λ h. h)
      (λ _. elim (finished-cases f (o.closed c)) [
        | inl bad ↦ absurd (o.after bad)
        | inr good ↦ good
      ])
      (m, o)
Move-Order {sc} {dc} f (write d chunk ph c) mo =
    Order-on (holding chunk) reading f (λ h. h) (λ h. h) (λ h. absurd h)
      (subst (λ g. Order dc g f × Order sc f g) ph mo)
Move-Order {sc} {dc} f (write_fails d part lost ph (inr c)) mo = cc
Move-Order {sc} {dc} f (write_fails d part lost ph (inl c)) mo =
    let (m, o) = subst (λ g. Order dc g f × Order sc f g) ph mo in absurd (m.closed c)

close-Order :
    (x y : Bool) (w : Cause) (a f : Phase)
    → a ≡ copied w
    → Order x a f × Order y f a
    → Order true (finished w) f × Order y f (finished w)
close-Order x y at_eof a f e mo =
    let (m, o) = subst (λ g. Order x g f × Order y f g) e mo in
    (
      record { closed = λ _. tt; after = λ h. absurd h },
      record { closed = o.closed; after = λ _. tt },
    )
close-Order x y read_failed a f e mo =
    let (m, o) = subst (λ g. Order x g f × Order y f g) e mo in
    (record { closed = λ _. tt; after = m.after }, record { closed = o.closed; after = o.after })
close-Order x y write_failed a f e mo =
    let (m, o) = subst (λ g. Order x g f × Order y f g) e mo in
    (record { closed = λ _. tt; after = m.after }, record { closed = o.closed; after = o.after })

-- Neither connection breaks.
abbrev pub steady : Bool → Bool → Network
steady a_ends b_ends = record {
  a_ends = a_ends;
  b_ends = b_ends;
  a_breaks = false;
  b_breaks = false;
}

abbrev Ordered : State → Type 0
Ordered s = Order s.b_closed s.up.phase s.down.phase × Order s.a_closed s.down.phase s.up.phase

Step-Ordered : {m n : Bool} {s t : State} → Step (steady m n) s t → Ordered s → Ordered t
Step-Ordered (up_copies s d m) (u, v) = Move-Order s.down.phase m (u, v)
Step-Ordered (down_copies s d m) (u, v) = let (v, u) = Move-Order s.up.phase m (v, u) in (u, v)
Step-Ordered (up_closes s w e) (u, v) =
    close-Order s.b_closed s.a_closed w s.up.phase s.down.phase e (u, v)
Step-Ordered (down_closes s w e) (u, v) =
    let (v, u) = close-Order s.a_closed s.b_closed w s.down.phase s.up.phase e (v, u) in (u, v)

Reach-Ordered :
    {m n : Bool} {p q : Bytes} {k : ℕ} {s : State} → Reach (steady m n) (start p q) k s → Ordered s
Reach-Ordered here =
    (record { closed = λ e. cc; after = λ h. h }, record { closed = λ e. cc; after = λ h. h })
Reach-Ordered (next r st) = Step-Ordered st (Reach-Ordered r)

IsDone-delivers : (p : Bytes) (d : Direction) (f : Phase) → IsDone f → Whole p d f → p ≡ d.sent
IsDone-delivers p d (finished at_eof) h w = w
IsDone-delivers p d (finished read_failed) h w = absurd h
IsDone-delivers p d (finished write_failed) h w = absurd h
IsDone-delivers p d reading h w = absurd h
IsDone-delivers p d (holding c) h w = absurd h
IsDone-delivers p d (copied c) h w = absurd h

-- Where neither connection breaks, one of the directions has delivered all of its input as soon as a goroutine is finished:
-- what a relay can lose is only what came the other way after one side had ended.
pub relay_delivers :
    {m n : Bool} {p q : Bytes} {k : ℕ} {s : State}
    → Reach (steady m n) (start p q) k s
    → IsFinished s.up.phase ⊎ IsFinished s.down.phase
    → (p ≡ s.up.sent) ⊎ (q ≡ s.down.sent)
relay_delivers {p} {q} {s} r over =
    let i = Reach-Inv r in
    let (u, v) = Reach-Ordered r in
    let up_done = λ (h : IsDone s.up.phase). IsDone-delivers p s.up s.up.phase h i.up_whole in
    let down_done =
      λ (h : IsDone s.down.phase). IsDone-delivers q s.down s.down.phase h i.down_whole in
    elim over [
      | inl f ↦ elim (finished-cases s.up.phase f) [
        | inl bad ↦ inr (down_done (u.after bad))
        | inr good ↦ inl (up_done good)
      ]
      | inr f ↦ elim (finished-cases s.down.phase f) [
        | inl bad ↦ inl (up_done (v.after bad))
        | inr good ↦ inr (down_done good)
      ]
    ]
