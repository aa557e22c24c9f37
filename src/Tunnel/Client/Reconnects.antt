-- ===== src/Tunnel/Client/Reconnects.antt =====
-- The client does not give up.
use passage.Base.{
  Bytes, List, [], ◌∷◌, true, false, ◌≡◌, All, length, arith, Result-cases, inl, ap, inr, suc, refl,
}
use passage.Auth.Crypto.{Ed25519, Mldsa65}
use passage.Proto.Messages.{Open}
use passage.Proto.Framing.{Json}
use passage.Tunnel.Handshake.{Codecs}
use passage.Tunnel.Backoff.{run_delays, delays, failed, next_backoff}
use passage.Tunnel.Client.{Client, Turn, connect_and_serve, round_of, rounds_of, run_client}
use passage.Tunnel.Client.Serving.{connect_and_serve-closes}
use passage.Config.Types.{ReconnectConfig}
use passage.Base.Int.{ℤ}

-- The context is not done at any point of the turn.
abbrev pub IsRunning : {Rest : Type 0} → Turn Rest → Type 0
IsRunning t =
    (t.done_before ≡ false)
    × (t.attempt.stopped ≡ false)
    × (t.done_after ≡ false)
    × (t.slept ≡ true)

module _ (sha256 : Bytes → Bytes) (j : Codecs) (jo : Json Open) (ed : Ed25519)
    {PublicKey PrivateKey : Type 0} (pq : Mldsa65 PublicKey PrivateKey) {Rest : Type 0} where
  round_of-failed :
      (c : Client PrivateKey) (t : Turn Rest)
      → IsRunning t
      → round_of sha256 j jo ed pq c t ≡ failed t.add
  round_of-failed c t (before, stopped, after, slept) =
      elim (Result-cases (connect_and_serve sha256 j jo ed pq c t.attempt).result) [
        | inl (_, fine) ↦
            absurd
              (ground (arith, (connect_and_serve-closes sha256 j jo ed pq c t.attempt).1.0 fine))
        | inr (e, bad) ↦ unfold round_of in ground arith
      ]

  delays-length :
      (c : Client PrivateKey) (r : ReconnectConfig) (b : ℤ) (turns : List (Turn Rest))
      → All IsRunning turns
      → length (delays r b (rounds_of sha256 j jo ed pq c turns)) ≡ length turns
  unfolding rounds_of delays
  delays-length c r b [] h = refl
  delays-length c r b (t ∷ turns) (h, hs) =
      rw (round_of-failed c t h)
        (ap suc (delays-length c r (next_backoff r.max_backoff b) turns hs))

  -- As long as the context is not done, Run does not return: whatever the attempts come to, each is followed by a sleep and
  -- by the next attempt.
  pub run_client_reconnects :
      (c : Client PrivateKey) (turns : List (Turn Rest))
      → All IsRunning turns
      → length (run_client sha256 j jo ed pq c turns) ≡ length turns
  unfolding run_client run_delays
  run_client_reconnects c turns h =
      delays-length c c.cfg.reconnect c.cfg.reconnect.initial_backoff turns h
