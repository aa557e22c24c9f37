-- ===== src/QuickDocker/Render/MapOrder.antt =====
-- The generated files do not depend on the order in which Go walks the map of services.
use passage.Base.{
  Map, Bytes, keys, All, Distinct, List, ap, lookup, ◌∙◌, sym, ◌≡◌, ◌≢◌, refl, ◌∷◌, [], arith,
  same_iff, subst,
}
use passage.QuickDocker.Spec.{Spec, ServiceEntry}
use mathlib.Core.List.{Permᴰ}
use passage.QuickDocker.Render.{
  service_keys, sorted_service_names, for_each, server_published_ports, render_server_yaml,
  render_client_yaml, server_listen_for_service,
}
use passage.Go.Sort.Order.{sort_strings-perm}

pub service_keys-perm :
    {m n : Map ServiceEntry} → Permᴰ m n → Permᴰ (service_keys m) (service_keys n)
unfolding service_keys
service_keys-perm Permᴰ.nil = Permᴰ.nil
service_keys-perm (Permᴰ.cons e p) = Permᴰ.cons (ap (λ x. x.0) e) (service_keys-perm p)
service_keys-perm (Permᴰ.swap e f) = Permᴰ.swap (ap (λ x. x.0) e) (ap (λ x. x.0) f)
service_keys-perm (Permᴰ.trans p q) = Permᴰ.trans (service_keys-perm p) (service_keys-perm q)

module _ {V : Type 0} where
  -- `k` is no key of the map.
  abbrev Misses : Bytes → Map V → Type 0
  Misses k m = All (λ j. k ≢ j) (keys m)

  Misses-perm : (k : Bytes) {m n : Map V} → Permᴰ m n → Misses k m → Misses k n
  Misses-perm k Permᴰ.nil h = h
  Misses-perm k (Permᴰ.cons e p) (h, hs) = (λ q. h (q ∙ sym (ap (λ x. x.0) e)), Misses-perm k p hs)
  Misses-perm k (Permᴰ.swap e f) (h, (g, hs)) =
      (λ q. g (q ∙ sym (ap (λ x. x.0) f)), (λ q. h (q ∙ sym (ap (λ x. x.0) e)), hs))
  Misses-perm k (Permᴰ.trans p q) h = Misses-perm k q (Misses-perm k p h)

  pub Distinct-perm : {m n : Map V} → Permᴰ m n → Distinct (keys m) → Distinct (keys n)
  Distinct-perm Permᴰ.nil h = h
  Distinct-perm (Permᴰ.cons e p) (h, hs) =
      (rw (← ap (λ x. x.0) e) (Misses-perm _ p h), Distinct-perm p hs)
  Distinct-perm (Permᴰ.swap {l} e f) ((h, g), (k, hs)) = (
    (λ q. h (ap (λ x. x.0) e ∙ sym q ∙ sym (ap (λ x. x.0) f)), subst (λ x. Misses x.0 l) f k),
    (subst (λ x. Misses x.0 l) e g, hs),
  )
  Distinct-perm (Permᴰ.trans p q) h = Distinct-perm q (Distinct-perm p h)

  pub lookup-perm :
      (k : Bytes) {m n : Map V} → Permᴰ m n → Distinct (keys m) → lookup k m ≡ lookup k n
  unfolding lookup
  lookup-perm k Permᴰ.nil h = refl
  lookup-perm k (Permᴰ.cons {a} {b} e p) (h, hs) = rw (e, lookup-perm k p hs)
  lookup-perm k (Permᴰ.swap {a} {b} {a'} {b'} e f) ((h, g), (j, hs)) =
      rw (← e, ← f) (ground (arith, same_iff a.0 k, same_iff b.0 k))
  lookup-perm k (Permᴰ.trans p q) h = lookup-perm k p h ∙ lookup-perm k q (Distinct-perm p h)

for_each-perm :
    (f : Bytes → ServiceEntry → List Bytes) (m n : Map ServiceEntry) (names : List Bytes)
    → ((k : Bytes) → lookup k m ≡ lookup k n)
    → for_each f m names ≡ for_each f n names
unfolding for_each
for_each-perm f m n [] h = refl
for_each-perm f m n (k ∷ names) h = rw (h k, for_each-perm f m n names h)

module _ {m n : Map ServiceEntry} (d : Distinct (keys m)) (p : Permᴰ m n) where
  pub sorted-perm : sorted_service_names m ≡ sorted_service_names n
  unfolding sorted_service_names
  sorted-perm = sort_strings-perm (service_keys-perm p)

  all-perm :
      (f : Bytes → ServiceEntry → List Bytes)
      → for_each f m (sorted_service_names m) ≡ for_each f n (sorted_service_names n)
  all-perm f =
      rw sorted-perm (for_each-perm f m n (sorted_service_names n) (λ k. lookup-perm k p d))

-- For two walks over one map of services, whose keys are distinct as those of a Go map are, the server's file,
-- the client's file and the published ports are the same.
pub render-perm :
    (spec : Spec) (n : Map ServiceEntry) (pk pq_pk fingerprint : Bytes)
    → Distinct (keys spec.services)
    → Permᴰ spec.services n
    → (render_server_yaml spec pk pq_pk
        ≡ render_server_yaml (record spec { services = n }) pk pq_pk)
      × (render_client_yaml spec fingerprint
          ≡ render_client_yaml (record spec { services = n }) fingerprint)
      × (server_published_ports spec ≡ server_published_ports (record spec { services = n }))
unfolding render_server_yaml render_client_yaml server_published_ports server_listen_for_service
render-perm spec n pk pq_pk fingerprint d p =
    (rw (all-perm d p), rw (all-perm d p), rw (all-perm d p))
