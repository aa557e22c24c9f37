-- ===== src/QuickDocker/Render/Unordered.antt =====
-- The services of a specification as a Go map is: without an order.
use mathlib.Core.Quot
use mathlib.Core.Quot.{Quot, Quot-set}
use mathlib.Core.List.{Permᴰ}
use passage.QuickDocker.Spec.{Spec, ServiceEntry}
use passage.QuickDocker.Render.{
  sorted_service_names, render_server_yaml, render_client_yaml, server_published_ports,
}
use passage.QuickDocker.Render.MapOrder.{render-perm, sorted-perm, lookup-perm}
use passage.QuickDocker.Render.Arranged.{arranged, arranged-sorted}
use passage.Base.{Bytes, Map, Distinct, List, keys, lookup, ◌≡◌, ◌∷◌, [], refl, subst, ◌↔◌, ap}
use mathlib.Core.List.Permᴰ

-- One walk over a map.
abbrev pub Walk : Type 0
Walk = (m : Map ServiceEntry) × Distinct (keys m)

abbrev pub SameEntries : Walk → Walk → Type 0
SameEntries v w = Permᴰ v.0 w.0

abbrev pub Services : Type 0
Services = Quot SameEntries

abbrev pub files_of :
    Spec → Bytes → Bytes → Bytes → Map ServiceEntry → List Bytes × List Bytes × List Bytes
files_of spec pk pq_pk fingerprint m = (
  render_server_yaml (record spec { services = m }) pk pq_pk,
  render_client_yaml (record spec { services = m }) fingerprint,
  server_published_ports (record spec { services = m }),
)

arranged-respects :
    (m n : Map ServiceEntry) (ks : List Bytes)
    → ((k : Bytes) → lookup k m ≡ lookup k n)
    → arranged m ks ≡ arranged n ks
unfolding arranged
arranged-respects m n [] h = refl
arranged-respects m n (k ∷ ks) h = rw (h k, arranged-respects m n ks h) refl

pub services_set : IsSet (Map ServiceEntry)
services_set = hlevel

pub files_set : IsSet (List Bytes × List Bytes × List Bytes)
files_set = hlevel

pub walks_agree :
    (v w : Walk)
    → SameEntries v w
    → arranged v.0 (sorted_service_names v.0) ≡ arranged w.0 (sorted_service_names w.0)
walks_agree v w p =
    rw (sorted-perm v.1 p)
      (arranged-respects v.0 w.0 (sorted_service_names w.0) (λ k. lookup-perm k p v.1))

-- The entries by name.
unfoldable pub canonical : Services → Map ServiceEntry
canonical =
    Quot.lift services_set (λ (v : Walk). arranged v.0 (sorted_service_names v.0)) walks_agree

pub files_agree :
    (spec : Spec) (pk pq_pk fingerprint : Bytes) (v w : Walk)
    → SameEntries v w
    → files_of spec pk pq_pk fingerprint v.0 ≡ files_of spec pk pq_pk fingerprint w.0
files_agree spec pk pq_pk fingerprint v w p =
    let (a, b, c) = render-perm (record spec { services = v.0 }) w.0 pk pq_pk fingerprint v.1 p in
    λ i. (a i, b i, c i)

-- The files and the ports, whatever the walk.
unfoldable pub files :
    Spec → Bytes → Bytes → Bytes → Services → List Bytes × List Bytes × List Bytes
files spec pk pq_pk fingerprint =
    Quot.lift files_set (λ (v : Walk). files_of spec pk pq_pk fingerprint v.0)
      (files_agree spec pk pq_pk fingerprint)

-- Services whose entries by name are the same are the same.
canonical_injective : (s t : Services) → canonical s ≡ canonical t → s ≡ t
unfolding canonical
canonical_injective =
    Quot.ind (λ s. hlevel (Quot-set))
      (λ v.
        Quot.ind (λ t. hlevel (Quot-set))
          (λ w h. Quot.sound (
            Permᴰ.trans (subst (λ m. Permᴰ v.0 m) h (arranged-sorted v.0 v.1))
              (Permᴰ.symm (arranged-sorted w.0 w.1)))))

files-canonical :
    (spec : Spec) (pk pq_pk fingerprint : Bytes) (s : Services)
    → files spec pk pq_pk fingerprint s ≡ files_of spec pk pq_pk fingerprint (canonical s)
unfolding files canonical
files-canonical spec pk pq_pk fingerprint =
    Quot.ind (λ s. files_set _ _)
      (λ v.
        let (a, b, c) =
          render-perm (record spec { services = v.0 }) _ pk pq_pk fingerprint v.1
            (arranged-sorted v.0 v.1) in
        λ i. (a i, b i, c i))

-- The services of a specification, taken without an order, are the same exactly if their entries by name are, and the server's file, the
-- client's file and the published ports are those of the walk by name.
pub canonical_iff :
    (spec : Spec) (pk pq_pk fingerprint : Bytes) (s t : Services)
    → ((s ≡ t) ↔ (canonical s ≡ canonical t))
      × (files spec pk pq_pk fingerprint s ≡ files_of spec pk pq_pk fingerprint (canonical s))
canonical_iff spec pk pq_pk fingerprint s t =
    ((λ e. ap canonical e, canonical_injective s t), files-canonical spec pk pq_pk fingerprint s)
