-- ===== src/QuickDocker/Load.antt =====
-- Load of internal/quickdocker/spec.go. The YAML decoder is a parameter.
use passage.QuickDocker.Spec.Valid.{IsValid, spec_validate_iff}
use passage.Base.{
  Bytes, Option, Result, ok, or_err, wrap_err, ◌>>=◌, ◌>>◌, ◌≡◌, ◌↔◌, some, >>=-eq-ok, >>-eq-ok,
  or_err-eq-ok, ◌∙◌, ap, sym, wrap_err-eq-ok, refl,
}
use passage.Go.Files.{Files, read_file}
use passage.QuickDocker.Spec.{Spec, SpecError, validate}

pub data LoadSpecError : Type 0 where
  unreadable not_yaml : LoadSpecError
  invalid : SpecError → LoadSpecError

-- `decode` is the decoder with KnownFields on the first document.
unfoldable pub load : (Bytes → Option Spec) → Files → Bytes → Result LoadSpecError Spec
load decode f path = do
  data_ ← or_err (read_file f path) unreadable
  s ← or_err (decode data_) not_yaml
  wrap_err invalid (validate s)
  ok s

-- Load returns a specification exactly if the file can be read and decodes to it, and it is valid.
pub load_iff :
    (decode : Bytes → Option Spec) (f : Files) (path : Bytes) (s : Spec)
    → (load decode f path ≡ ok s)
      ↔ ((b : Bytes) × (read_file f path ≡ some b) × (decode b ≡ some s) × IsValid s)
unfolding load
load_iff decode f path s = (
  λ h.
      (let (b, r, h) = >>=-eq-ok (or_err (read_file f path) unreadable) _ h in
        let (raw, d, h) = >>=-eq-ok (or_err (decode b) not_yaml) _ h in
        let (v, e) = >>-eq-ok (wrap_err invalid (validate raw)) (ok raw) h in
        let given : raw ≡ s = cc in
        (
          b,
          or_err-eq-ok (read_file f path) unreadable r,
          or_err-eq-ok (decode b) not_yaml d ∙ ap (λ x. some x) given,
          (spec_validate_iff s).0 (rw (sym given) (wrap_err-eq-ok invalid (validate raw) v)),
        )),
  λ (b, r, d, v). rw r (rw d (rw ((spec_validate_iff s).1 v) refl)),
)
