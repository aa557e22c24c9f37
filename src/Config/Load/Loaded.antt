-- ===== src/Config/Load/Loaded.antt =====
-- What the loaders return.
use passage.Base.{
  Bytes, ◌≡◌, ◌↔◌, Option, some, ok, refl, Bool, >>=-eq-ok, or_err, >>-eq-ok, wrap_err,
  or_err-eq-ok, sym, wrap_err-eq-ok,
}
use passage.Go.Files.{Files, read_file}
use passage.Config.Types.{ServerConfig, ClientConfig}
use passage.Config.Load.{
  load_server, load_client, unreadable, not_yaml, client_invalid, server_invalid,
}
use passage.Config.Server.Valid.{server_validate_iff}
use passage.Config.Client.Valid.{client_validate_iff}
use passage.Config.Server
use passage.Config.Client

-- LoadServer returns a configuration exactly if the file can be read and decoded, the defaults make what it holds
-- this configuration, and this configuration is valid.
pub load_server_iff :
    (cidr_ok : Bytes → Bool) (decode : Bytes → Option ServerConfig) (f : Files) (path : Bytes)
    (c : ServerConfig)
    → (load_server cidr_ok decode f path ≡ ok c) ↔ (
        (b : Bytes) × (raw : ServerConfig) × (read_file f path ≡ some b)
        × (decode b ≡ some raw)
        × (Server.apply_defaults raw ≡ c)
        × Server.Valid.IsValid cidr_ok c)
unfolding load_server
load_server_iff cidr_ok decode f path c = (
  λ h.
      (let (b, r, h) = >>=-eq-ok (or_err (read_file f path) unreadable) _ h in
        let (raw, d, h) = >>=-eq-ok (or_err (decode b) not_yaml) _ h in
        let (v, e) =
          >>-eq-ok (wrap_err server_invalid (Server.validate cidr_ok (Server.apply_defaults raw)))
            (ok (Server.apply_defaults raw)) h in
        let given : Server.apply_defaults raw ≡ c = cc in
        (
          b,
          raw,
          or_err-eq-ok (read_file f path) unreadable r,
          or_err-eq-ok (decode b) not_yaml d,
          given,
          (server_validate_iff cidr_ok c).0 (
              rw (sym given) (
                wrap_err-eq-ok server_invalid (Server.validate cidr_ok (Server.apply_defaults raw))
                  v)),
        )),
  λ (b, raw, r, d, e, v). rw r (rw d (rw e (rw ((server_validate_iff cidr_ok c).1 v) refl))),
)

-- LoadClient returns a configuration exactly if the file can be read and decoded, the defaults make what it holds
-- this configuration, and this configuration is valid.
pub load_client_iff :
    (decode : Bytes → Option ClientConfig) (f : Files) (path : Bytes) (c : ClientConfig)
    → (load_client decode f path ≡ ok c) ↔ (
        (b : Bytes) × (raw : ClientConfig) × (read_file f path ≡ some b)
        × (decode b ≡ some raw)
        × (Client.apply_defaults raw ≡ c)
        × Client.Valid.IsValid c)
unfolding load_client
load_client_iff decode f path c = (
  λ h.
      (let (b, r, h) = >>=-eq-ok (or_err (read_file f path) unreadable) _ h in
        let (raw, d, h) = >>=-eq-ok (or_err (decode b) not_yaml) _ h in
        let (v, e) =
          >>-eq-ok (wrap_err client_invalid (Client.validate (Client.apply_defaults raw)))
            (ok (Client.apply_defaults raw)) h in
        let given : Client.apply_defaults raw ≡ c = cc in
        (
          b,
          raw,
          or_err-eq-ok (read_file f path) unreadable r,
          or_err-eq-ok (decode b) not_yaml d,
          given,
          (client_validate_iff c).0 (
              rw (sym given)
                (wrap_err-eq-ok client_invalid (Client.validate (Client.apply_defaults raw)) v)),
        )),
  λ (b, raw, r, d, e, v). rw r (rw d (rw e (rw ((client_validate_iff c).1 v) refl))),
)
