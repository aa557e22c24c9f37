-- ===== src/Examples/Deployments.antt =====
-- A specification in isolated mode with two services on different ports.
use mathlib.Core.Quot
use mathlib.Core.Quot.{Quot}
use passage.QuickDocker.Render.Unordered.{Services, canonical, files, files_of, canonical_iff}
use mathlib.Core.List.{Permᴰ}
use passage.QuickDocker.Spec.{
  Spec, ServiceEntry, validate, validate_services, validate_mode, mode_isolated, mode_host,
}
use passage.QuickDocker.Spec.Valid.{IsValid, spec_validate_iff}
use passage.Base.{
  codes, ◌≡◌, ◌↔◌, ok, Distinct, Map, ◌∷◌, [], lookup, ◌⊎◌, same, refl, insert, ap, length, arith,
}
use passage.QuickDocker.Render.Addresses.{listens, ports, listens-Distinct_iff}
use passage.Go.HostPort.{split_host_port}

abbrev pub spec : Spec
spec = record {
  server = record { listen = codes ":443"; address = codes "vps:443"; mode = mode_isolated };
  client = record { identity = record { id = codes "alice" }; mode = mode_host };
  project_name = [];
  services =
      (codes "web", record { client = codes "a:80"; server = codes ":8080" })
      ∷ ((codes "shell", record { client = codes "a:22"; server = codes ":2222" }) ∷ []);
}

spec_validates : validate spec ≡ ok tt
unfolding validate validate_services split_host_port lookup same validate_mode insert
spec_validates = refl

spec_validate_iff_example : (validate spec ≡ ok tt) ↔ IsValid spec
spec_validate_iff_example = spec_validate_iff spec

pub spec-IsValid : IsValid spec
spec-IsValid = (spec_validate_iff spec).0 spec_validates

listens-Distinct_iff_example :
    Distinct (listens spec spec.services)
    ↔ ((spec.server.mode ≡ mode_host) ⊎ Distinct (ports spec.services))
listens-Distinct_iff_example = listens-Distinct_iff spec spec-IsValid

abbrev other_walk : Map ServiceEntry
other_walk =
    (codes "shell", record { client = codes "a:22"; server = codes ":2222" })
    ∷ ((codes "web", record { client = codes "a:80"; server = codes ":8080" }) ∷ [])

abbrev services : Services
services = Quot.mk (spec.services, (((λ e. omega (arith, ap length e)), tt), (tt, tt)))

abbrev other_services : Services
other_services = Quot.mk (other_walk, (((λ e. omega (arith, ap length e)), tt), (tt, tt)))

canonical_iff_example :
    ((services ≡ other_services) ↔ (canonical services ≡ canonical other_services))
    × (files spec (codes "k") (codes "q") (codes "f") services
        ≡ files_of spec (codes "k") (codes "q") (codes "f") (canonical services))
canonical_iff_example =
    canonical_iff spec (codes "k") (codes "q") (codes "f") services other_services

-- The two walks are one map.
one_map : services ≡ other_services
one_map = Quot.sound (Permᴰ.swap refl refl)
