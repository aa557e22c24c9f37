-- ===== src/Cmd/Verify.antt =====
-- runVerify of cmd/passage/main.go.
use passage.Base.{
  Bytes, false, Option, some, Result, ok, err, or_err, wrap_err, is_empty, codes, ◌≡◌, ◌↔◌, arith,
  refl, wrap_err-eq-ok, Result-cases, ap, inl, inr,
}
use passage.Auth.Crypto.{Ed25519, Mldsa65}
use passage.Auth.Keys.{Pem}
use passage.Config.Types.{ClientConfig}
use passage.Config.Load.{load_client, LoadError}
use passage.Proto.Messages.{Open}
use passage.Proto.Framing.{Json}
use passage.Tunnel.Handshake.{Codecs}
use passage.Tunnel.Client.{Client, Attempt, new_client, verify_once}
use passage.Tunnel.Client.Serving.{IsEstablished, verify_once_iff}
use passage.Cmd.{
  Cmd, Shell, ◌>>=◌, ◌>>◌, lift, print, refuse_empty, bad_flags, no_config, load_config,
  make_client, not_verified, CmdError,
}

module _ (decode : Bytes → Option ClientConfig) (pem : Pem) (sha256 : Bytes → Bytes) (j : Codecs)
    (jo : Json Open) (ed : Ed25519) {PublicKey PrivateKey : Type 0}
    (pq : Mldsa65 PublicKey PrivateKey) where
  abbrev of_config : Shell → Result LoadError ClientConfig → Result CmdError (Client PrivateKey)
  of_config s (ok cfg) = wrap_err make_client (new_client pem ed pq s.files cfg)
  of_config s (err e) = err (load_config e)

  -- LoadClient and NewClient.
  unfoldable pub configured_client : Bytes → Cmd (Client PrivateKey)
  configured_client path s = (of_config s (load_client decode s.files path), s)

  unfoldable pub run_verify : {Rest : Type 0} → Option Bytes → Attempt Rest → Cmd (Unit {0})
  unfolding configured_client
  run_verify flags a = do
    path ← lift (or_err flags bad_flags)
    refuse_empty path no_config
    c ← configured_client path
    lift (wrap_err not_verified (verify_once sha256 j jo ed pq c a))
    print (codes "ok: reachability and authentication succeeded")

  of_config_iff :
      (s : Shell) (r : Result LoadError ClientConfig) (c : Client PrivateKey)
      → (of_config s r ≡ ok c)
        ↔ ((cfg : ClientConfig) × (r ≡ ok cfg) × (new_client pem ed pq s.files cfg ≡ ok c))
  of_config_iff s (ok cfg) c = (
    λ e. (cfg, refl, wrap_err-eq-ok make_client _ e),
    λ (cfg', same_, made).
        let e : new_client pem ed pq s.files cfg ≡ ok c = cc in ap (wrap_err make_client) e,
  )
  of_config_iff s (err x) c = (λ e. absurd (cc), λ (cfg, e, _). absurd (cc))

  -- `passage verify` exits successfully exactly if it is given a configuration file that LoadClient takes, NewClient makes a
  -- client of it, and the client's connection is established: dialled, to the server with the pinned certificate, under the
  -- post-quantum key exchange, and accepted by the handshake.
  pub run_verify_iff :
      {Rest : Type 0} (path : Bytes) (a : Attempt Rest) (s : Shell)
      → ((run_verify (some path) a s).0 ≡ ok tt) ↔ (
          (is_empty path ≡ false)
          × ((cfg : ClientConfig) × (c : Client PrivateKey) × (load_client decode s.files path
                ≡ ok cfg)
              × (new_client pem ed pq s.files cfg ≡ ok c)
              × IsEstablished sha256 j jo ed pq c a))
  unfolding run_verify configured_client print
  run_verify_iff path a s = (
    λ h. elim (Result-cases (of_config s (load_client decode s.files path))) [
      | inl (c, made) ↦ elim (Result-cases (verify_once sha256 j jo ed pq c a)) [
        | inl (_, verified) ↦
            let (cfg, loaded, from) =
              (of_config_iff s (load_client decode s.files path) c).0 made in
            (
              ground arith,
              (cfg, c, loaded, from, (verify_once_iff sha256 j jo ed pq c a).0 verified),
            )
        | inr (_, refused) ↦ absurd (ground arith)
      ]
      | inr (_, refused) ↦ absurd (ground arith)
    ],
    λ (given, (cfg, c, loaded, from, established)). ground (
      arith,
      (of_config_iff s (load_client decode s.files path) c).1 (cfg, loaded, from),
      (verify_once_iff sha256 j jo ed pq c a).1 established,
    ),
  )
