-- ===== src/Examples/Interleavings.antt =====
-- Runs of interleaved goroutines: a relay of one byte, and two sessions of one client.
use passage.Base.{ℕ, Bytes, [], ◌∷◌, ◌≡◌, ◌⊎◌, refl, true, inl, length, ◌≤◌, ◌+◌, ◌*◌, false}
use passage.Tunnel.Relay.{
  State, Step, Reach, at_eof, start, IsFinished, up_copies, up_closes, read, write, eof, reading,
  holding, copied, finished, next, here,
}
use passage.Tunnel.Relay.Ends.{relay_ends}
use passage.Tunnel.Relay.Delivery.{steady, relay_delivers}

abbrev one : Bytes
one = 7 ∷ []

abbrev taken : State
taken = record (start one []) { up = record { pending = []; sent = []; phase = holding one } }

abbrev passed : State
passed = record (start one []) { up = record { pending = []; sent = one; phase = reading } }

abbrev drained : State
drained = record (start one []) { up = record { pending = []; sent = one; phase = copied at_eof } }

abbrev closed : State
closed = record (start one []) {
  up = record { pending = []; sent = one; phase = finished at_eof };
  b_closed = true;
}

relayed : Reach (steady true false) (start one []) 4 closed
relayed =
    next
      (next
        (next
          (next here (
            up_copies (start one []) taken.up
              (read (start one []).up one [] refl refl (λ e. cc) refl)))
          (up_copies taken passed.up (write taken.up one refl refl)))
        (up_copies passed drained.up (eof passed.up refl refl refl refl)))
      (up_closes drained at_eof refl)

relay_ends_example :
    (4 ≤ 2 * length one + 2 * length {A = ℕ} [] + 4)
    × ((IsFinished closed.up.phase × IsFinished closed.down.phase)
        ⊎ ((t : State) × Step (steady true false) closed t))
relay_ends_example = relay_ends (inl (inl refl)) relayed

relay_delivers_example : (one ≡ closed.up.sent) ⊎ ([] ≡ closed.down.sent)
relay_delivers_example = relay_delivers relayed (inl tt)
