-- ===== src/Examples/Signing.antt =====
-- Signatures, clocks and keys at concrete inputs.
use passage.Base.{◌≡◌, ok, arith, refl, ◌↔◌, ◌∷◌, [], ◌-◌, ◌⊎◌}
use passage.Examples.Handshakes.{alice, web, noon, nonce_bytes, exporter_bytes}
use passage.Auth.SigningInput.Injective.{Context, IsEncodable, pq_signing_input_injective}
use passage.Auth.Skew.{check_clock_skew, max_clock_skew, check_clock_skew_iff}
use passage.Base.Int.{pos, negsuc, ◌≤ℤ◌}
use passage.Go.Time.{distance, unix, min_duration}

abbrev context : Context
context = record {
  nonce = nonce_bytes;
  exporter = exporter_bytes;
  client_id = alice;
  client_time = pos 990;
  requested = web ∷ [];
}

context-IsEncodable : IsEncodable context
context-IsEncodable = record {
  nonce_fits = omega arith;
  exporter_fits = omega arith;
  client_id_fits = omega arith;
  time_fits = omega arith;
  count_fits = omega arith;
  services_fit = (omega arith, tt);
}

pq_signing_input_injective_example : context ≡ context
pq_signing_input_injective_example =
    pq_signing_input_injective context context context-IsEncodable context-IsEncodable refl

check_clock_skew_iff_example : (check_clock_skew noon (pos 990) ≡ ok tt) ↔ (
    ((negsuc (max_clock_skew - 1) ≤ℤ distance noon (unix (pos 990)))
      × (distance noon (unix (pos 990)) ≤ℤ pos max_clock_skew))
    ⊎ (distance noon (unix (pos 990)) ≤ℤ min_duration))
check_clock_skew_iff_example = check_clock_skew_iff noon (pos 990)
