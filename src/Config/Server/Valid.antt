-- ===== src/Config/Server/Valid.antt =====
-- What Validate accepts, described without its loops.
use passage.Base.{
  Map, Bytes, Bool, List, Result, has_prefix, ◌≡◌, true, ◌∷◌, ◌≢◌, [], ok, ℕ, All, ◌↔◌, arith,
  codes, lookup, Distinct, none, insert, keys, err, ◌++◌, false, insert_all, Threaded, ◌+◌,
  >>=-eq-ok, Threaded-Distinct, Threaded-append, refl,
}
use passage.Base.Int.{pos, ◌≤ℤ◌, ltb_ℤ}
use passage.Config.Types.{ServerConfig, LimitsConfig, ClientEntry, ServiceEntry}
use passage.Go.HostPort.{split_host_port}
use passage.Config.Server.{
  validate_prefixes, ConfigError, validate_cidrs, validate_service, validate_services, validate,
  validate_client, validate_clients, validate_limits, pubkey_prefix_bad, pq_pubkey_prefix_bad,
}

abbrev pub is_ok : {E A : Type 0} → Result E A → Bool
is_ok (ok a) = true
is_ok (err e) = false

-- An address that net.SplitHostPort takes.
abbrev pub IsAddress : Bytes → Type 0
IsAddress s = is_ok (split_host_port s) ≡ true

abbrev pub HasPrefix : Bytes → Bytes → Type 0
HasPrefix p s = has_prefix p s ≡ true

-- The key under which the loop records an address, with its owner.
abbrev pub owned : Bytes → List ServiceEntry → List (Bytes × Bytes)
owned id [] = []
owned id (s ∷ ss) = (s.listen, id ++ (codes "/" ++ s.name)) ∷ owned id ss

abbrev pub all_owned : List ClientEntry → List (Bytes × Bytes)
all_owned [] = []
all_owned (c ∷ cs) = owned c.id c.services ++ all_owned cs

abbrev pub named : List ServiceEntry → List (Bytes × Unit {0})
named [] = []
named (s ∷ ss) = (s.name, tt) ∷ named ss

abbrev pub identified : List ClientEntry → List (Bytes × Unit {0})
identified [] = []
identified (c ∷ cs) = (c.id, tt) ∷ identified cs

prefixes_iff :
    (p : Bytes) (e : ConfigError) (ss : List Bytes)
    → (validate_prefixes p e ss ≡ ok tt) ↔ All (HasPrefix p) ss
unfolding validate_prefixes
prefixes_iff p e [] = ground arith
prefixes_iff p e (s ∷ ss) = ground (arith, prefixes_iff p e ss)

abbrev pub IsValidLimits : LimitsConfig → Type 0
IsValidLimits l =
    (pos 1 ≤ℤ l.max_streams_per_client)
    × (pos 1 ≤ℤ l.handshake_timeout)
    × (pos 1 ≤ℤ l.heartbeat_interval)
    × (ltb_ℤ l.heartbeat_interval l.idle_timeout ≡ true)

module _ (cidr_ok : Bytes → Bool) where
  abbrev pub IsValidService : ServiceEntry → Type 0
  IsValidService s =
      (s.name ≢ []) × IsAddress s.listen × All (λ cidr. cidr_ok cidr ≡ true) s.allowed_user_cidrs

  abbrev pub IsValidClient : ClientEntry → Type 0
  IsValidClient c =
      (c.id ≢ [])
      × (c.pubkey ≢ [])
      × All (HasPrefix (codes "ed25519:")) c.pubkey
      × (c.pq_pubkey ≢ [])
      × All (HasPrefix (codes "mldsa:")) c.pq_pubkey
      × (c.services ≢ [])
      × All IsValidService c.services
      × Distinct (keys (named c.services))

  cidrs_iff :
      (id name : Bytes) (cs : List Bytes)
      → (validate_cidrs cidr_ok id name cs ≡ ok tt) ↔ All (λ cidr. cidr_ok cidr ≡ true) cs
  unfolding validate_cidrs
  cidrs_iff id name [] = ground arith
  cidrs_iff id name (c ∷ cs) = ground (arith, cidrs_iff id name cs)

  -- One service: exactly when it is valid and neither its name nor its address is taken.
  service_iff :
      (id : Bytes) (j : ℕ) (seen : Map (Unit {0})) (listens : Map Bytes) (s : ServiceEntry)
      (m : Map Bytes)
      → (validate_service cidr_ok id j seen listens s ≡ ok m) ↔ (
          IsValidService s
          × (lookup s.name seen ≡ none)
          × (lookup s.listen listens ≡ none)
          × (m ≡ insert s.listen (id ++ (codes "/" ++ s.name)) listens))
  unfolding validate_service
  service_iff id j seen listens s m = ground (arith, cidrs_iff id s.name s.allowed_user_cidrs)

  services_iff :
      (id : Bytes) (j : ℕ) (seen : Map (Unit {0})) (listens : Map Bytes) (ss : List ServiceEntry)
      (m : Map Bytes)
      → (validate_services cidr_ok id j seen listens ss ≡ ok m) ↔ (
          All IsValidService ss
          × Threaded seen (named ss)
          × Threaded listens (owned id ss)
          × (m ≡ insert_all listens (owned id ss)))
  unfolding validate_services insert_all
  services_iff id j seen listens [] m = (λ h. ground arith, λ h. ground arith)
  services_iff id j seen listens (s ∷ ss) m =
      let next : Map Bytes = insert s.listen (id ++ (codes "/" ++ s.name)) listens in
      let rest = services_iff id (j + 1) (insert s.name tt seen) next ss m in
      (
        λ h.
            let (m', e, h) = >>=-eq-ok (validate_service cidr_ok id j seen listens s) _ h in
            let (valid, unseen, free, e) = (service_iff id j seen listens s m').0 e in
            let (valids, unseens, frees, e') = rest.0 (rw e at h) in
            ((valid, valids), (unseen, unseens), (free, frees), e'),
        λ ((valid, valids), (unseen, unseens), (free, frees), e).
            rw ((service_iff id j seen listens s next).1 (valid, unseen, free, refl))
              (rest.1 (valids, unseens, frees, e)),
      )

  client_iff :
      (i : ℕ) (seen : Map (Unit {0})) (listens : Map Bytes) (c : ClientEntry) (m : Map Bytes)
      → (validate_client cidr_ok i seen listens c ≡ ok m) ↔ (
          IsValidClient c
          × (lookup c.id seen ≡ none)
          × Threaded listens (owned c.id c.services)
          × (m ≡ insert_all listens (owned c.id c.services)))
  unfolding validate_client
  client_iff i seen listens c m = ground (
    arith,
    prefixes_iff (codes "ed25519:") (pubkey_prefix_bad c.id) c.pubkey,
    prefixes_iff (codes "mldsa:") (pq_pubkey_prefix_bad c.id) c.pq_pubkey,
    services_iff c.id 0 [] listens c.services m,
    Threaded-Distinct (named c.services),
  )

  clients_iff :
      (i : ℕ) (seen : Map (Unit {0})) (listens : Map Bytes) (cs : List ClientEntry)
      → (validate_clients cidr_ok i seen listens cs ≡ ok tt)
        ↔ (All IsValidClient cs × Threaded seen (identified cs) × Threaded listens (all_owned cs))
  unfolding validate_clients
  clients_iff i seen listens [] = (λ h. (tt, tt, tt), λ h. refl)
  clients_iff i seen listens (c ∷ cs) =
      let next : Map Bytes = insert_all listens (owned c.id c.services) in
      let rest = clients_iff (i + 1) (insert c.id tt seen) next cs in
      let both = Threaded-append listens (owned c.id c.services) (all_owned cs) in
      (
        λ h.
            let (m', e, h) = >>=-eq-ok (validate_client cidr_ok i seen listens c) _ h in
            let (valid, unseen, free, e) = (client_iff i seen listens c m').0 e in
            let (valids, unseens, frees) = rest.0 (rw e at h) in
            ((valid, valids), (unseen, unseens), both.1 (free, frees)),
        λ ((valid, valids), (unseen, unseens), frees).
            let (free, frees) = both.0 frees in
            rw ((client_iff i seen listens c next).1 (valid, unseen, free, refl))
              (rest.1 (valids, unseens, frees)),
      )

  -- A configuration that the server can run with.
  pub record IsValid (c : ServerConfig) : Type 0 where
    pub listen_given : c.listen ≢ []
    pub listen_address : IsAddress c.listen
    pub cert_given : c.tls.cert ≢ []
    pub key_given : c.tls.key ≢ []
    pub clients_given : c.clients ≢ []
    pub clients_valid : All IsValidClient c.clients
    pub ids_distinct : Distinct (keys (identified c.clients))
    pub listens_distinct : Distinct (keys (all_owned c.clients))
    pub limits_valid : IsValidLimits c.limits

  limits_iff : (l : LimitsConfig) → (validate_limits cidr_ok l ≡ ok tt) ↔ IsValidLimits l
  unfolding validate_limits
  limits_iff l = ground arith

  -- Validate returns nil exactly for the valid configurations.
  pub server_validate_iff : (c : ServerConfig) → (validate cidr_ok c ≡ ok tt) ↔ IsValid c
  unfolding validate
  server_validate_iff c = ground (
    arith,
    clients_iff 0 [] [] c.clients,
    limits_iff c.limits,
    Threaded-Distinct (identified c.clients),
    Threaded-Distinct (all_owned c.clients),
  )
