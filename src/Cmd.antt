-- ===== src/Cmd.antt =====
-- cmd/passage/main.go: the choice of the subcommand, the exit status, and the subcommands keygen, pq-keygen and
-- fingerprint; verify and quick-docker are below. The package flag is a parameter: a subcommand starts from the values of its flags.
pub mod Keygen
pub mod Verify
pub mod Start
pub mod Usage
pub mod Deploy
use passage.Base.{
  ℕ, Bytes, List, [], ◌∷◌, ◌++◌, Bool, same, is_empty, Option, Result, ok, err, or_err, wrap_err,
  codes, if◌then◌else◌, ◌||◌,
}
use passage.Config.Load.{LoadError}
use passage.Tunnel.Client.{NewClientError, DriveError}
use passage.Tunnel.Run.{MakeError, RunError}
use passage.Auth.Crypto.{Ed25519, Mldsa65}
use passage.Auth.Keys.{
  Pem, Base64, KeyFileError, encode_pubkey, encode_pq_pubkey, write_privkey_pem,
  write_pq_privkey_pem, generate_pq_keypair,
}
use passage.Go.Files.{Files}
use passage.QuickDocker.Cert.{X509, CertError, fingerprint_from_cert_file}

pub data CmdError : Type 0 where
  bad_flags no_config no_out no_pq_out bad_arguments no_random : CmdError
  key_file : KeyFileError → CmdError
  cert_file : CertError → CmdError
  load_config : LoadError → CmdError
  make_client : NewClientError → CmdError
  not_verified : DriveError → CmdError
  make_server_failed : MakeError → CmdError
  run_failed : RunError → CmdError

-- The files, and the lines on the standard output.
pub record Shell : Type 0 where
  pub files : Files
  pub stdout : List Bytes

abbrev pub Cmd : Type 0 → Type 0
Cmd A = Shell → Result CmdError A × Shell

infixl 5 ◌>>=◌ ◌>>◌
abbrev pub and_then :
    {A B : Type 0} → (A → Cmd B) → Result CmdError A × Shell → Result CmdError B × Shell
and_then f (ok a, s) = f a s
and_then f (err e, s) = (err e, s)

abbrev pub ◌>>=◌ : {A B : Type 0} → Cmd A → (A → Cmd B) → Cmd B
◌>>=◌ m f s = and_then f (m s)

abbrev pub ◌>>◌ : {B : Type 0} → Cmd (Unit {0}) → Cmd B → Cmd B
◌>>◌ m k s = and_then (λ _. k) (m s)

abbrev pub lift : {A : Type 0} → Result CmdError A → Cmd A
lift r s = (r, s)

unfoldable pub print : Bytes → Cmd (Unit {0})
print line s = (ok tt, record s { stdout = s.stdout ++ (line ∷ []) })

abbrev with_files : Shell → Result KeyFileError Files → Result CmdError (Unit {0}) × Shell
with_files s (ok f) = (ok tt, record s { files = f })
with_files s (err e) = (err (key_file e), s)

-- A function that writes a key's file.
abbrev pub on_files : (Files → Result KeyFileError Files) → Cmd (Unit {0})
on_files write_key s = with_files s (write_key s.files)

pub record KeygenFlags : Type 0 where
  pub out : Bytes
  pub pq_out : Bytes

abbrev pub refuse_empty : Bytes → CmdError → Cmd (Unit {0})
refuse_empty text e = lift (if is_empty text then err e else ok tt)

module _ (pem : Pem) (b64 : Base64) {PublicKey PrivateKey : Type 0}
    (pq : Mldsa65 PublicKey PrivateKey) where
  -- The second half of runKeygen, and all of runPQKeygen after its flags. `seed` is what the random generator gave.
  unfoldable pub store_pq_keypair : Bytes → Option Bytes → Cmd (Unit {0})
  store_pq_keypair out seed = do
    pq_pair ← lift (or_err (generate_pq_keypair pq seed) no_random)
    on_files (λ f. write_pq_privkey_pem pem pq f out pq_pair.2)
    print (codes "wrote pq private key: " ++ out)
    print (codes "pq public key (paste into server.yaml as pq_pubkey):")
    print (encode_pq_pubkey b64 pq pq_pair.0)

  -- `flags` is empty if the package flag refuses the arguments, `pair` is what ed25519.GenerateKey gave.
  unfoldable pub run_keygen :
      Ed25519 → Option KeygenFlags → Option (Bytes × Bytes) → Option Bytes → Cmd (Unit {0})
  unfolding store_pq_keypair
  run_keygen ed flags pair seed = do
    parsed ← lift (or_err flags bad_flags)
    refuse_empty parsed.out no_out
    refuse_empty parsed.pq_out no_pq_out
    drawn ← lift (or_err pair no_random)
    on_files (λ f. write_privkey_pem pem ed f parsed.out drawn.1)
    print (codes "wrote private key: " ++ parsed.out)
    print (codes "public key (paste into server.yaml as pubkey):")
    print (encode_pubkey b64 drawn.0)
    store_pq_keypair parsed.pq_out seed

  unfoldable pub run_pq_keygen : Option Bytes → Option Bytes → Cmd (Unit {0})
  unfolding store_pq_keypair
  run_pq_keygen flags seed = do
    out ← lift (or_err flags bad_flags)
    refuse_empty out no_out
    store_pq_keypair out seed

module _ (pem : Pem) (x509 : X509) (sha256 : Bytes → Bytes) where
  unfoldable pub run_fingerprint : List Bytes → Cmd (Unit {0})
  run_fingerprint (path ∷ []) s =
      and_then print
        (wrap_err cert_file (fingerprint_from_cert_file pem x509 sha256 s.files path), s)
  run_fingerprint [] s = (err bad_arguments, s)
  run_fingerprint (path ∷ more ∷ rest) s = (err bad_arguments, s)

pub data Subcommand : Type 0 where
  server client verify keygen pq_keygen fingerprint quick_docker : Subcommand

-- What main does with the arguments after the program's name.
pub data Action : Type 0 where
  run : Subcommand → List Bytes → Action
  print_version print_usage refuse : Action

-- The cases of the switch, in order.
unfoldable pub action_of : Bytes → List Bytes → Action
action_of sub args =
    if same sub (codes "server")
    then run server args
    else if same sub (codes "client")
    then run client args
    else if same sub (codes "verify")
    then run verify args
    else if same sub (codes "keygen")
    then run keygen args
    else if same sub (codes "pq-keygen")
    then run pq_keygen args
    else if same sub (codes "fingerprint")
    then run fingerprint args
    else if same sub (codes "quick-docker")
    then run quick_docker args
    else if same sub (codes "version") || (same sub (codes "-v") || same sub (codes "--version"))
    then print_version
    else if same sub (codes "help") || (same sub (codes "-h") || same sub (codes "--help"))
    then print_usage
    else refuse

unfoldable pub action : List Bytes → Action
unfolding action_of
action [] = refuse
action (sub ∷ args) = action_of sub args

abbrev status_of : {E : Type 0} → Result E (Unit {0}) → ℕ
status_of (ok tt) = 0
status_of (err e) = 1

-- The exit status of main. `result` is what the function of a subcommand returned.
unfoldable pub exit_status :
    {E : Type 0} → (Subcommand → List Bytes → Result E (Unit {0})) → Action → ℕ
exit_status result (run sub args) = status_of (result sub args)
exit_status result print_version = 0
exit_status result print_usage = 0
exit_status result refuse = 2
