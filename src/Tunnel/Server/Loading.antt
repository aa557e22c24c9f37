-- ===== src/Tunnel/Server/Loading.antt =====
-- What the tables hold that NewServer builds.
use passage.Tunnel.Server.{
  Tables, add_client, add_clients, new_server, decode_pubkeys, decode_pq_pubkeys, service_map,
  bad_key, pq_pubkey_required,
}
use passage.Auth.Keys.{Base64}
use passage.Base.{
  List, Map, Bytes, ◌≡◌, All, Option, lookup, ok, ◌∷◌, [], some, ◌≢◌, insert, none, ◌↔◌, ◌∙◌, arith,
  ◌⊎◌, Any, lookup-insert, same_iff, refl, >>=-eq-ok, Distinct, same_refl, sym, wrap_err, >>-eq-ok,
  refuse_if,
}
use passage.Auth.Crypto.{Mldsa65}
use passage.Config.Types.{ClientEntry, ServiceEntry, ServerConfig}
use passage.Config.Server.{is_nil}

-- The services of an allowlist, by name.
service_map-lookup_ne :
    (m : Map ServiceEntry) (k : Bytes) (ss : List ServiceEntry)
    → All (λ s. s.name ≢ k) ss
    → lookup k (service_map m ss) ≡ lookup k m
unfolding service_map
service_map-lookup_ne m k [] h = refl
service_map-lookup_ne m k (s ∷ ss) (h, hs) =
    service_map-lookup_ne (insert s.name s m) k ss hs
    ∙ ground (arith, lookup-insert s.name k s m, same_iff s.name k)

-- A requested name is in the allowlist exactly when a configured service has it.
pub service_map_iff :
    (m : Map ServiceEntry) (k : Bytes) (ss : List ServiceEntry)
    → (lookup k (service_map m ss) ≢ none) ↔ ((lookup k m ≢ none) ⊎ Any (λ s. s.name ≡ k) ss)
unfolding service_map
service_map_iff m k [] = ground arith
service_map_iff m k (s ∷ ss) =
    ground (
      arith,
      service_map_iff (insert s.name s m) k ss,
      lookup-insert s.name k s m,
      same_iff s.name k,
    )

abbrev pub ids : List ClientEntry → List Bytes
ids [] = []
ids (c ∷ cs) = c.id ∷ ids cs

module _ (b64 : Base64) {PublicKey PrivateKey : Type 0} (pq : Mldsa65 PublicKey PrivateKey) where
  -- The entry's decoded keys and its services stand under its id.
  pub record IsLoaded (t : Tables PublicKey) (ce : ClientEntry) : Type 0 where
    pub pubs : List Bytes
    pub pq_pubs : List (Option PublicKey)
    pub pubs_decoded : decode_pubkeys b64 pq ce.pubkey ≡ ok pubs
    pub pq_pubs_decoded : decode_pq_pubkeys b64 pq ce.pq_pubkey ≡ ok pq_pubs
    pub by_id : lookup ce.id t.clients_by_id ≡ some ce
    pub client_pubs : lookup ce.id t.client_pubs ≡ some pubs
    pub client_pq_pubs : lookup ce.id t.client_pq_pubs ≡ some pq_pubs
    pub allowed : lookup ce.id t.allowed ≡ some (service_map [] ce.services)

  -- Under this id both tables say the same.
  pub record Agree (id : Bytes) (t u : Tables PublicKey) : Type 0 where
    pub by_id : lookup id u.clients_by_id ≡ lookup id t.clients_by_id
    pub client_pubs : lookup id u.client_pubs ≡ lookup id t.client_pubs
    pub client_pq_pubs : lookup id u.client_pq_pubs ≡ lookup id t.client_pq_pubs
    pub allowed : lookup id u.allowed ≡ lookup id t.allowed

  -- The tables after one entry.
  abbrev with_client :
      Tables PublicKey → ClientEntry → List Bytes → List (Option PublicKey) → Tables PublicKey
  with_client t ce pubs pq_pubs = record {
    clients_by_id = insert ce.id ce t.clients_by_id;
    client_pubs = insert ce.id pubs t.client_pubs;
    client_pq_pubs = insert ce.id pq_pubs t.client_pq_pubs;
    allowed = insert ce.id (service_map [] ce.services) t.allowed;
  }

  add_client-ok :
      (t u : Tables PublicKey) (ce : ClientEntry)
      → add_client b64 pq t ce ≡ ok u
      → (pubs : List Bytes) × (pq_pubs : List (Option PublicKey)) × (decode_pubkeys b64 pq ce.pubkey
          ≡ ok pubs)
        × (decode_pq_pubkeys b64 pq ce.pq_pubkey ≡ ok pq_pubs)
        × (u ≡ with_client t ce pubs pq_pubs)
  unfolding add_client
  add_client-ok t u ce h =
      let (pubs, d, h) =
        >>=-eq-ok (wrap_err (bad_key ce.id) (decode_pubkeys b64 pq ce.pubkey)) _ h in
      let (_, h) = >>-eq-ok (refuse_if (is_nil ce.pq_pubkey) (pq_pubkey_required ce.id)) _ h in
      let (pq_pubs, e, h) =
        >>=-eq-ok (wrap_err (bad_key ce.id) (decode_pq_pubkeys b64 pq ce.pq_pubkey)) _ h in
      (pubs, pq_pubs, ground arith, ground arith, ground arith)

  add_client-Agree :
      (t u : Tables PublicKey) (ce : ClientEntry) (id : Bytes)
      → add_client b64 pq t ce ≡ ok u
      → ce.id ≢ id
      → Agree id t u
  add_client-Agree t u ce id h ne =
      let (pubs, pq_pubs, _, _, e) = add_client-ok t u ce h in
      let other = same_iff ce.id id in
      record {
        by_id = rw (e, lookup-insert) (ground (arith, other));
        client_pubs = rw (e, lookup-insert) (ground (arith, other));
        client_pq_pubs = rw (e, lookup-insert) (ground (arith, other));
        allowed = rw (e, lookup-insert) (ground (arith, other));
      }

  add_client-IsLoaded :
      (t u : Tables PublicKey) (ce : ClientEntry) → add_client b64 pq t ce ≡ ok u → IsLoaded u ce
  add_client-IsLoaded t u ce h =
      let (pubs, pq_pubs, d, f, e) = add_client-ok t u ce h in
      record {
        pubs = pubs;
        pq_pubs = pq_pubs;
        pubs_decoded = d;
        pq_pubs_decoded = f;
        by_id = rw (e, lookup-insert, same_refl);
        client_pubs = rw (e, lookup-insert, same_refl);
        client_pq_pubs = rw (e, lookup-insert, same_refl);
        allowed = rw (e, lookup-insert, same_refl);
      }

  Agree-trans : {id : Bytes} {t u v : Tables PublicKey} → Agree id t u → Agree id u v → Agree id t v
  Agree-trans g h = record {
    by_id = h.by_id ∙ g.by_id;
    client_pubs = h.client_pubs ∙ g.client_pubs;
    client_pq_pubs = h.client_pq_pubs ∙ g.client_pq_pubs;
    allowed = h.allowed ∙ g.allowed;
  }

  Agree-IsLoaded :
      {t u : Tables PublicKey} {ce : ClientEntry} → Agree ce.id t u → IsLoaded t ce → IsLoaded u ce
  Agree-IsLoaded g l = record {
    pubs = l.pubs;
    pq_pubs = l.pq_pubs;
    pubs_decoded = l.pubs_decoded;
    pq_pubs_decoded = l.pq_pubs_decoded;
    by_id = g.by_id ∙ l.by_id;
    client_pubs = g.client_pubs ∙ l.client_pubs;
    client_pq_pubs = g.client_pq_pubs ∙ l.client_pq_pubs;
    allowed = g.allowed ∙ l.allowed;
  }

  add_clients-Agree :
      (t u : Tables PublicKey) (cs : List ClientEntry) (id : Bytes)
      → add_clients b64 pq t cs ≡ ok u
      → All (λ j. id ≢ j) (ids cs)
      → Agree id t u
  unfolding add_clients
  add_clients-Agree t u [] id h ne = record {
    by_id = ground arith;
    client_pubs = ground arith;
    client_pq_pubs = ground arith;
    allowed = ground arith;
  }
  add_clients-Agree t u (c ∷ cs) id h (ne, nes) =
      let (t', e, h) = >>=-eq-ok (add_client b64 pq t c) _ h in
      Agree-trans (add_client-Agree t t' c id e (λ q. ne (sym q)))
        (add_clients-Agree t' u cs id h nes)

  add_clients-IsLoaded :
      (t u : Tables PublicKey) (cs : List ClientEntry)
      → add_clients b64 pq t cs ≡ ok u
      → Distinct (ids cs)
      → All (IsLoaded u) cs
  unfolding add_clients
  add_clients-IsLoaded t u [] h d = tt
  add_clients-IsLoaded t u (c ∷ cs) h (ne, d) =
      let (t', e, h) = >>=-eq-ok (add_client b64 pq t c) _ h in
      (
        Agree-IsLoaded (add_clients-Agree t' u cs c.id h ne) (add_client-IsLoaded t t' c e),
        add_clients-IsLoaded t' u cs h d,
      )

  -- If NewServer succeeds on a configuration whose client ids are distinct, every client's decoded keys and its services
  -- stand under its id.
  pub new_server-IsLoaded :
      (cfg : ServerConfig) (t : Tables PublicKey)
      → Distinct (ids cfg.clients)
      → new_server b64 pq cfg ≡ ok t
      → All (IsLoaded t) cfg.clients
  unfolding new_server
  new_server-IsLoaded cfg t d h = add_clients-IsLoaded _ t cfg.clients h d

  -- If NewServer succeeds, an id that no configured client has is in none of the tables, so validateAuth does not know it.
  pub new_server-absent :
      (cfg : ServerConfig) (t : Tables PublicKey) (id : Bytes)
      → new_server b64 pq cfg ≡ ok t
      → All (λ j. id ≢ j) (ids cfg.clients)
      → (lookup id t.clients_by_id ≡ none)
        × (lookup id t.client_pubs ≡ none)
        × (lookup id t.client_pq_pubs ≡ none)
        × (lookup id t.allowed ≡ none)
  unfolding new_server lookup
  new_server-absent cfg t id h ne =
      let g = add_clients-Agree _ t cfg.clients id h ne in
      (g.by_id, g.client_pubs, g.client_pq_pubs, g.allowed)
