-- ===== src/Cmd/Deploy.antt =====
-- runQuickDocker of cmd/passage/main.go.
use passage.Base.{
  Bytes, Bool, List, [], ◌∷◌, ◌++◌, Option, Result, ok, err, or_err, wrap_err, is_empty, codes,
  if◌then◌else◌,
}
use passage.Auth.Crypto.{Ed25519, Mldsa65}
use passage.Auth.Keys.{Pem, Base64}
use passage.Go.Disk.{Disk, M, pure, ◌>>=◌}
use passage.QuickDocker.Cert.{X509}
use passage.QuickDocker.Spec.{Spec}
use passage.QuickDocker.Load.{LoadSpecError, load}
use passage.QuickDocker.Generate.{Drawn, GenerateError, GenerateResult, generate}

-- The values of the flags, and the arguments after them.
pub record DeployFlags : Type 0 where
  pub out : Bytes
  pub force : Bool
  pub args : List Bytes

pub data DeployError : Type 0 where
  bad_flags bad_arguments : DeployError
  load_spec : LoadSpecError → DeployError
  not_generated : GenerateError → DeployError

-- The lines before the next steps.
unfoldable pub report : GenerateResult → List Bytes
report res =
    (codes "wrote " ++ res.server_dir)
    ∷ ((codes "wrote " ++ res.client_dir)
        ∷ ((codes "server fingerprint:    " ++ res.fingerprint)
            ∷ ((codes "client public key:     " ++ res.pub_key)
                ∷ ((if is_empty res.pq_pub_key
                      then []
                      else (codes "client pq public key:  " ++ res.pq_pub_key) ∷ [])
                    ++ ((codes "server compose project: " ++ res.server_project)
                        ∷ ((codes "client compose project: " ++ res.client_project)
                            ∷ ([]
                                ∷ (codes "next steps:"
                                    ∷ ((codes "  copy "
                                          ++ (res.server_dir
                                              ++ codes
                                                  " to the public-facing host, then: docker compose up -d"))
                                        ∷ ((codes "  copy "
                                              ++ (res.client_dir
                                                  ++ codes
                                                      " to the private-network host, then: docker compose up -d"))
                                            ∷ []))))))))))

abbrev of_args : List Bytes → Result DeployError Bytes
of_args [] = err bad_arguments
of_args (path ∷ []) = ok path
of_args (path ∷ more ∷ rest) = err bad_arguments

abbrev failing :
    Result GenerateError GenerateResult × Disk → Result DeployError GenerateResult × Disk
failing (r, d) = (wrap_err not_generated r, d)

module _ (decode : Bytes → Option Spec) (pem : Pem) (x509 : X509) (sha256 : Bytes → Bytes)
    (b64 : Base64) (ed : Ed25519) {PublicKey PrivateKey : Type 0}
    (pq : Mldsa65 PublicKey PrivateKey) where
  -- What it prints if it succeeds.
  unfoldable pub run_quick_docker : Option DeployFlags → Drawn → M DeployError (List Bytes)
  unfolding report
  run_quick_docker flags r = do
    f ← pure (or_err flags bad_flags)
    path ← pure (of_args f.args)
    spec ← (λ d. (wrap_err load_spec (load decode d.files path), d))
    res ← (λ d.
        failing (
          generate pem x509 sha256 b64 ed pq spec (record { out_dir = f.out; force = f.force }) r
            d))
    pure (ok (report res))
