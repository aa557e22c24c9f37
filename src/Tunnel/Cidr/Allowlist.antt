-- ===== src/Tunnel/Cidr/Allowlist.antt =====
-- Who gets through the allowlist of a service.
use passage.Tunnel.Cidr.{Netip, parse_cidrs, cidr_allowed, any_contains}
use passage.Base.{
  Bytes, List, Bool, some, ◌≡◌, true, false, none, ◌↔◌, Any, ◌∷◌, [], arith, ◌≢◌, All, ok, refl,
  Result, err,
}
use passage.Go.HostPort.{split_host_port, AddrError}

module _ {Prefix Addr : Type 0} (nip : Netip Prefix Addr) where
  -- netip.ParsePrefix takes the text.
  abbrev pub cidr_ok : Bytes → Bool
  cidr_ok c = elim (nip.parse_prefix c) [ some _ ↦ true | none ↦ false ]

  -- The text denotes a prefix that contains the address.
  abbrev pub Covers : Addr → Bytes → Type 0
  Covers a c = elim (nip.parse_prefix c) [ some p ↦ nip.contains p a ≡ true | none ↦ ⊥ ]

  any_contains_iff :
      (a : Addr) (cs : List Bytes)
      → (any_contains nip a (parse_cidrs nip cs) ≡ true) ↔ Any (Covers a) cs
  unfolding any_contains parse_cidrs
  any_contains_iff a [] = ground arith
  any_contains_iff a (c ∷ cs) = ground (arith, any_contains_iff a cs)

  parse_cidrs-ne-nil :
      (cs : List Bytes) → cs ≢ [] → All (λ c. cidr_ok c ≡ true) cs → parse_cidrs nip cs ≢ []
  unfolding parse_cidrs
  parse_cidrs-ne-nil [] ne h = absurd (ne refl)
  parse_cidrs-ne-nil (c ∷ cs) ne h = ground arith

  cidr_allowed-any :
      (addr host port : Bytes) (a : Addr) (ps : List Prefix)
      → ps ≢ []
      → split_host_port addr ≡ ok (host, port)
      → nip.parse_addr host ≡ some a
      → cidr_allowed nip addr ps ≡ any_contains nip a ps
  unfolding cidr_allowed
  cidr_allowed-any addr host port a [] ne e p = absurd (ne refl)
  cidr_allowed-any addr host port a (q ∷ ps) ne e p = ground arith

  turned_away :
      (addr : Bytes) (ps : List Prefix)
      → ps ≢ []
      → (r : Result AddrError (Bytes × Bytes)) → split_host_port addr ≡ r
      → ((host port : Bytes) → split_host_port addr ≡ ok (host, port) → nip.parse_addr host ≡ none)
      → cidr_allowed nip addr ps ≡ false
  unfolding cidr_allowed
  turned_away addr [] ne r e un = absurd (ne refl)
  turned_away addr (q ∷ ps) ne (err x) e un = ground arith
  turned_away addr (q ∷ ps) ne (ok (host, port)) e un = ground (arith, un host port e)

  -- For a service whose allowlist is not empty and was validated, a user whose address can be read is let in exactly if
  -- some configured text denotes a prefix that contains it.
  pub cidr_allowed_iff :
      (cs : List Bytes) (addr host port : Bytes) (a : Addr)
      → cs ≢ []
      → All (λ c. cidr_ok c ≡ true) cs
      → split_host_port addr ≡ ok (host, port)
      → nip.parse_addr host ≡ some a
      → (cidr_allowed nip addr (parse_cidrs nip cs) ≡ true) ↔ Any (Covers a) cs
  cidr_allowed_iff cs addr host port a ne valid e p =
      rw
        (cidr_allowed-any addr host port a (parse_cidrs nip cs) (parse_cidrs-ne-nil cs ne valid) e
          p)
        (any_contains_iff a cs)

  -- With a validated allowlist that is not empty, an address that cannot be read is turned away.
  pub cidr_allowed-unreadable :
      (cs : List Bytes) (addr : Bytes)
      → cs ≢ []
      → All (λ c. cidr_ok c ≡ true) cs
      → ((host port : Bytes) → split_host_port addr ≡ ok (host, port) → nip.parse_addr host ≡ none)
      → cidr_allowed nip addr (parse_cidrs nip cs) ≡ false
  cidr_allowed-unreadable cs addr ne valid un =
      turned_away addr (parse_cidrs nip cs) (parse_cidrs-ne-nil cs ne valid) (split_host_port addr)
        refl un
