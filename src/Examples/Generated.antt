-- ===== src/Examples/Generated.antt =====
-- A generated deployment, and the keys of keygen.
use passage.QuickDocker.Generate.{
  Drawn, GenerateOptions, GenerateResult, generate, generate_server_keys, generate_client_keys,
  generate_configs, ensure_fresh_dir, by_stat,
}
use passage.QuickDocker.Cert.{X509, generate_self_signed_tls}
use passage.Go.Files.{write_file}
use passage.Go.Hex.{encode_to_string}
use passage.QuickDocker.Compose.{compose_project_name}
use passage.Base.{
  has_prefix, Bytes, codes, [], ◌∷◌, ◌≡◌, refl, true, false, some, ok, err, length, lookup, same,
  arith, subst, inr, inl,
}
use passage.Base.Int.{pos}
use passage.Examples.Toy.{toy_ed, toy_pq}
use passage.Examples.Handshakes.{key}
use passage.Examples.KeyFiles.{plain_pem, plain_pem-round_trip, plain_base64, private_key, files}
use passage.Examples.Deployments.{spec}
use passage.Auth.Keys.{
  load_privkey_pem, load_pq_privkey_pem, encode_pubkey, encode_pq_pubkey, malformed,
  generate_pq_keypair, write_privkey_pem, write_pq_privkey_pem,
}
use passage.Go.Path.{clean, elements, keep_elements, rejoin}
use passage.Go.Disk.{
  has_dir, is_entry_below, is_name, below, Disk, join, is_under, stat, mem, mkdir_all, write, chmod,
}
use passage.QuickDocker.Generate.Frame.{Keeps, Keeps-generate}
use passage.Cmd.{Shell, KeygenFlags, run_keygen, store_pq_keypair, print}
use passage.Cmd.Keygen.{run_keygen-load_privkey_pem, run_keygen-malformed}
use passage.Auth.Crypto.{seed_size}
use passage.QuickDocker.Generate.Succeeds.{IsDrawn, generate_succeeds}
use passage.QuickDocker.Generate.Success.{IsAble}

-- A certificate is its public key.
abbrev pub plain_x509 : X509
plain_x509 = record {
  create_certificate = λ t public private. some public;
  marshal_pkcs8 = λ private. some private;
  parse_certificate = λ der. some der;
}

abbrev pub drawn : Drawn
drawn = record {
  tls_key = some (3 ∷ [], 4 ∷ []);
  serial = some 11;
  now = pos 1000;
  client_key = some (key, private_key);
  pq_seed = some key;
}

abbrev pub options : GenerateOptions
options = record { out_dir = codes "./"; force = false }

abbrev pub empty_disk : Disk
empty_disk = record {
  files = files;
  dirs = [];
  stat_fails = λ p. false;
  removable = λ p. true;
  remains = λ p. false;
  creatable = λ p. true;
  chmodable = λ p. true;
}

abbrev pub written : Disk
written =
    (generate plain_pem plain_x509 (λ b. b) plain_base64 toy_ed toy_pq spec options drawn
      empty_disk).1

abbrev pub generated : GenerateResult
generated = record {
  server_dir = codes "server";
  client_dir = codes "client";
  fingerprint = codes "sha256:03";
  pub_key = encode_pubkey plain_base64 key;
  pq_pub_key = encode_pq_pubkey plain_base64 toy_pq (toy_pq.new_key_from_seed key).0;
  server_project = codes "passage-server";
  client_project = codes "passage-client";
}

-- The drawn private key is the one of its seed.
pub drawn_keys :
    (pair : Bytes × Bytes)
    → drawn.client_key ≡ some pair
    → (length (toy_ed.seed pair.1) ≡ seed_size)
      × (toy_ed.new_key_from_seed (toy_ed.seed pair.1) ≡ pair.1)
drawn_keys pair e =
    let same_key : private_key ≡ pair.1 = cc in
    subst
      (λ k. (length (toy_ed.seed k) ≡ seed_size) × (toy_ed.new_key_from_seed (toy_ed.seed k) ≡ k))
      same_key (refl, refl)

pub succeeds :
    generate plain_pem plain_x509 (λ b. b) plain_base64 toy_ed toy_pq spec options drawn empty_disk
    ≡ (ok generated, written)
unfolding generate generate_server_keys generate_client_keys generate_configs ensure_fresh_dir
    by_stat stat mem lookup same join below mkdir_all write chmod write_file
    generate_self_signed_tls generate_pq_keypair write_privkey_pem write_pq_privkey_pem
    encode_to_string compose_project_name clean elements keep_elements rejoin has_dir is_entry_below
    is_name
succeeds = refl

all_drawn : IsDrawn plain_x509 drawn
all_drawn = record {
  tls_pair = (3 ∷ [], 4 ∷ []);
  serial = 11;
  der = 3 ∷ [];
  priv_der = 4 ∷ [];
  pair = (key, private_key);
  seed = key;
  drawn_tls = refl;
  drawn_serial = refl;
  created = refl;
  marshalled = refl;
  drawn_pair = refl;
  pair_size = refl;
  drawn_seed = refl;
  seed_length = refl;
}

-- A disk with one of the two directories, and -force.
abbrev used_disk : Disk
used_disk = record empty_disk { dirs = codes "server" ∷ [] }

able : IsAble used_disk
able = record {
  stats = λ p. refl;
  removes = λ p. refl;
  creates = λ p. refl;
  chmods = λ p. refl;
  writes = λ p. refl;
}

generate_succeeds_example :
    (res : GenerateResult) × (d' : Disk) × (generate plain_pem plain_x509
        (λ b. b)
        plain_base64
        toy_ed
        toy_pq
        spec
        (record options { force = true })
        drawn
        used_disk
      ≡ (ok res, d'))
unfolding stat mem lookup same join below clean elements keep_elements rejoin
generate_succeeds_example =
    generate_succeeds plain_pem plain_x509 (λ b. b) plain_base64 toy_ed toy_pq spec
      (record options { force = true }) drawn used_disk all_drawn able (inr (refl, refl)) (inl refl)

Keeps-generate_example :
    Keeps
      (codes "notes.txt")
      (generate plain_pem plain_x509 (λ b. b) plain_base64 toy_ed toy_pq spec options drawn)
unfolding is_under same join below has_prefix clean elements keep_elements rejoin
Keeps-generate_example =
    Keeps-generate plain_pem plain_x509 (λ b. b) plain_base64 toy_ed toy_pq (codes "notes.txt") spec
      options drawn refl refl

abbrev flags : KeygenFlags
flags = record { out = codes "id.pem"; pq_out = codes "id-pq.pem" }

abbrev shell : Shell
shell = record { files = files; stdout = [] }

abbrev after_keygen : Shell
after_keygen =
    (run_keygen plain_pem plain_base64 toy_pq toy_ed (some flags) (some (key, private_key))
      (some key) shell).1

run_keygen-load_privkey_pem_example :
    (load_privkey_pem plain_pem toy_ed after_keygen.files (codes "id.pem") ≡ ok private_key)
    × (load_pq_privkey_pem plain_pem toy_pq after_keygen.files (codes "id-pq.pem")
        ≡ ok (toy_pq.new_key_from_seed key))
unfolding run_keygen store_pq_keypair print generate_pq_keypair write_privkey_pem
    write_pq_privkey_pem write_file same
run_keygen-load_privkey_pem_example =
    run_keygen-load_privkey_pem plain_pem plain_base64 toy_pq plain_pem-round_trip toy_ed flags
      (key, private_key) key shell after_keygen (λ e. ground arith) refl refl refl

abbrev one_path : KeygenFlags
one_path = record { out = codes "id.pem"; pq_out = codes "id.pem" }

abbrev overwritten : Shell
overwritten =
    (run_keygen plain_pem plain_base64 toy_pq toy_ed (some one_path) (some (key, private_key))
      (some key) shell).1

run_keygen-malformed_example :
    load_privkey_pem plain_pem toy_ed overwritten.files (codes "id.pem") ≡ err malformed
unfolding run_keygen store_pq_keypair print generate_pq_keypair write_privkey_pem
    write_pq_privkey_pem write_file same
run_keygen-malformed_example =
    run_keygen-malformed plain_pem plain_base64 toy_pq plain_pem-round_trip toy_ed (codes "id.pem")
      (key, private_key) key shell overwritten refl
