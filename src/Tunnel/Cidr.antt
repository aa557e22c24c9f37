-- ===== src/Tunnel/Cidr.antt =====
-- parseCIDRs and cidrAllowed of internal/tunnel/server.go. net/netip is a parameter.
pub mod Allowlist
use passage.Base.{Bool, true, false, List, [], ◌∷◌, Bytes, Option, some, none, ◌||◌, err, ok}
use passage.Go.HostPort.{split_host_port}

-- net/netip: ParsePrefix, ParseAddr and Prefix.Contains.
pub record Netip (Prefix Addr : Type 0) : Type 0 where
  pub parse_prefix : Bytes → Option Prefix
  pub parse_addr : Bytes → Option Addr
  pub contains : Prefix → Addr → Bool

module _ {Prefix Addr : Type 0} (nip : Netip Prefix Addr) where
  abbrev pub and_prefix : Option Prefix → List Prefix → List Prefix
  and_prefix none rest = rest
  and_prefix (some p) rest = p ∷ rest

  -- A text that is no prefix is skipped.
  unfoldable pub parse_cidrs : List Bytes → List Prefix
  parse_cidrs [] = []
  parse_cidrs (c ∷ rest) = and_prefix (nip.parse_prefix c) (parse_cidrs rest)

  unfoldable pub any_contains : Addr → List Prefix → Bool
  any_contains a [] = false
  any_contains a (p ∷ rest) = nip.contains p a || any_contains a rest

  -- The address of the connection, as net.Addr prints it.
  unfoldable pub cidr_allowed : Bytes → List Prefix → Bool
  unfolding any_contains
  cidr_allowed addr [] = true
  cidr_allowed addr (p ∷ rest) = elim (split_host_port addr) [
    | err _ ↦ false
    | ok hp ↦ elim (nip.parse_addr hp.0) [ none ↦ false | some a ↦ any_contains a (p ∷ rest) ]
  ]
