-- ===== src/QuickDocker/Render/Addresses.antt =====
-- The addresses that the generated server.yaml makes the server listen on.
use passage.Base.{
  Map, Bytes, List, Distinct, All, same_iff, [], codes, same, ◌∷◌, ◌≡◌, keys, ◌++◌, ◌↔◌, ◌≢◌, arith,
  refl, ◌⊎◌, inl, inr,
}
use passage.QuickDocker.Spec.{Spec, ServiceEntry, mode_host, mode_isolated}
use passage.QuickDocker.Spec.Valid.{IsValid, servers}
use passage.QuickDocker.Render.{server_listen_for_service, halves}
use passage.Go.HostPort.{split_host_port}

-- The `listen:` values of the services.
unfoldable pub listens : Spec → Map ServiceEntry → List Bytes
unfolding server_listen_for_service
listens spec [] = []
listens spec ((name, sv) ∷ rest) = server_listen_for_service spec sv ∷ listens spec rest

-- The ports of the server addresses.
unfoldable pub ports : Map ServiceEntry → List Bytes
ports [] = []
ports ((name, sv) ∷ rest) = (halves (split_host_port sv.server)).1 ∷ ports rest

abbrev any_host : Bytes → Bytes
any_host port = codes "0.0.0.0:" ++ port

any_host_injective : (p q : Bytes) → any_host p ≡ any_host q → p ≡ q
any_host_injective p q e = cc

module _ (spec : Spec) where
  host-keys :
      spec.server.mode ≡ mode_host → (m : Map ServiceEntry) → listens spec m ≡ keys (servers m)
  unfolding listens
  host-keys e [] = refl
  host-keys e ((name, sv) ∷ m) = ground (arith, host-keys e m, same_iff spec.server.mode mode_host)

  All-iff :
      (e : spec.server.mode ≡ mode_isolated) (k : Bytes) (m : Map ServiceEntry)
      → All (λ j. any_host k ≢ j) (listens spec m) ↔ All (λ j. k ≢ j) (ports m)
  unfolding listens ports same
  All-iff e k [] = ground arith
  All-iff e k ((name, sv) ∷ m) = rw e (ground (arith, All-iff e k m))

  isolated-listen :
      spec.server.mode ≡ mode_isolated
      → (sv : ServiceEntry)
      → server_listen_for_service spec sv ≡ any_host (halves (split_host_port sv.server)).1
  unfolding server_listen_for_service same
  isolated-listen e sv = rw e

  Distinct-iff :
      (e : spec.server.mode ≡ mode_isolated) (m : Map ServiceEntry)
      → Distinct (listens spec m) ↔ Distinct (ports m)
  unfolding listens ports
  Distinct-iff e [] = ground arith
  Distinct-iff e ((name, sv) ∷ m) =
      rw (isolated-listen e sv)
        (ground (arith, All-iff e (halves (split_host_port sv.server)).1 m, Distinct-iff e m))

  -- For a valid specification the addresses that server.yaml listens on are distinct, as the server's own validation
  -- wants them, exactly if the server runs in host mode or no two services have the same port. So in isolated mode
  -- two services on one port of two hosts, which Spec.Validate accepts, give a file that the server refuses.
  pub listens-Distinct_iff :
      IsValid spec
      → Distinct (listens spec spec.services)
        ↔ ((spec.server.mode ≡ mode_host) ⊎ Distinct (ports spec.services))
  listens-Distinct_iff v = by_mode v.server_mode
    where
      by_mode :
          (spec.server.mode ≡ mode_host) ⊎ (spec.server.mode ≡ mode_isolated)
          → Distinct (listens spec spec.services)
            ↔ ((spec.server.mode ≡ mode_host) ⊎ Distinct (ports spec.services))
      by_mode (inl h) = (λ d. inl h, λ d. rw (host-keys h spec.services) v.servers_distinct)
      by_mode (inr e) = (λ d. inr ((Distinct-iff e spec.services).0 d), back e)
        where
          back :
              spec.server.mode ≡ mode_isolated
              → (spec.server.mode ≡ mode_host) ⊎ Distinct (ports spec.services)
              → Distinct (listens spec spec.services)
          back e (inl h) = cc
          back e (inr d) = (Distinct-iff e spec.services).1 d
