-- ===== src/Tunnel/Users/Admitted.antt =====
-- Which users of a service reach proxyUser.
use passage.Base.{
  if◌then◌else◌, Bytes, List, [], ◌∷◌, ◌≡◌, ◌↔◌, ◌⊎◌, All, Any, arith, true, inl, ok, inr, none,
  some, Result, refl, err, Option-cases, Bool-cases, subst, ◌||◌, sym,
}
use passage.Tunnel.Cidr.{Netip, parse_cidrs, cidr_allowed}
use passage.Tunnel.Cidr.Allowlist.{cidr_ok, Covers, cidr_allowed_iff, cidr_allowed-unreadable}
use passage.Tunnel.Users.{
  User, Arrival, arrives, fails, Fate, proxied, refused, accept_loop, accept_users,
}
use passage.Config.Types.{ServiceEntry}
use passage.Go.HostPort.{split_host_port, AddrError}

-- The users that come before the error that ends the loop.
abbrev pub before_end : List Arrival → List User
before_end [] = []
before_end (fails ctx_done is_closed ∷ rest) = if ctx_done || is_closed then [] else before_end rest
before_end (arrives u ∷ rest) = u ∷ before_end rest

module _ {Prefix Addr : Type 0} (nip : Netip Prefix Addr) where
  -- There is no allowlist, or the address can be read and some configured prefix contains it.
  abbrev pub IsWelcome : List Bytes → Bytes → Type 0
  IsWelcome cs addr =
      (cs ≡ [])
      ⊎ ((host : Bytes) × (port : Bytes) × (a : Addr) × (split_host_port addr ≡ ok (host, port))
          × (nip.parse_addr host ≡ some a)
          × Any (Covers nip a) cs)

  read-cases :
      (addr : Bytes)
      → ((host port : Bytes) → split_host_port addr ≡ ok (host, port) → nip.parse_addr host ≡ none)
        ⊎ ((host : Bytes) × (port : Bytes) × (a : Addr) × (split_host_port addr ≡ ok (host, port))
            × (nip.parse_addr host ≡ some a))
  read-cases addr = go (split_host_port addr) refl
    where
      go :
          (r : Result AddrError (Bytes × Bytes))
          → split_host_port addr ≡ r
          → ((host port : Bytes)
              → split_host_port addr ≡ ok (host, port)
              → nip.parse_addr host ≡ none)
            ⊎ ((host : Bytes) × (port : Bytes) × (a : Addr) × (split_host_port addr
                  ≡ ok (host, port))
                × (nip.parse_addr host ≡ some a))
      go (err x) e = inl (λ h p f. cc)
      go (ok (host, port)) e = elim (Option-cases (nip.parse_addr host)) [
        | inl un ↦ inl (λ h p f. ground arith)
        | inr (a, p) ↦ inr (host, port, a, e, p)
      ]

  IsWelcome-readable :
      (c : Bytes) (cs : List Bytes) (addr host port : Bytes) (a : Addr)
      → split_host_port addr ≡ ok (host, port)
      → nip.parse_addr host ≡ some a
      → IsWelcome (c ∷ cs) addr
      → Any (Covers nip a) (c ∷ cs)
  IsWelcome-readable c cs addr host port a e p (inl h) = cc
  IsWelcome-readable c cs addr host port a e p (inr (host', port', b, e', p', covered)) =
      let same_host : host' ≡ host = cc in
      let same_addr : b ≡ a = cc in subst (λ x. Any (Covers nip x) (c ∷ cs)) same_addr covered

  not-IsWelcome :
      (c : Bytes) (cs : List Bytes) (addr : Bytes)
      → ((host port : Bytes) → split_host_port addr ≡ ok (host, port) → nip.parse_addr host ≡ none)
      → IsWelcome (c ∷ cs) addr
      → ⊥
  not-IsWelcome c cs addr un (inl h) = cc
  not-IsWelcome c cs addr un (inr (host, port, a, e, p, covered)) = cc (un host port e)

  cidr_allowed-IsWelcome :
      (cs : List Bytes) (addr : Bytes)
      → All (λ c. cidr_ok nip c ≡ true) cs
      → (cidr_allowed nip addr (parse_cidrs nip cs) ≡ true) ↔ IsWelcome cs addr
  cidr_allowed-IsWelcome [] addr valid =
      (λ _. inl refl, λ _. (unfold cidr_allowed parse_cidrs in refl))
  cidr_allowed-IsWelcome (c ∷ cs) addr valid = elim (read-cases addr) [
    | inl un ↦
        let away = cidr_allowed-unreadable nip (c ∷ cs) addr (λ e. cc) valid un in
        (λ h. cc, λ w. absurd (not-IsWelcome c cs addr un w))
    | inr (host, port, a, e, p) ↦
        let allowed = cidr_allowed_iff nip (c ∷ cs) addr host port a (λ h. cc) valid e p in
        (
          λ h. inr (host, port, a, e, p, allowed.0 h),
          λ w. allowed.1 (IsWelcome-readable c cs addr host port a e p w),
        )
  ]

  -- One user: whether it is let in.
  fate-proxied :
      (cs : List Bytes) (u v : User)
      → All (λ c. cidr_ok nip c ≡ true) cs
      → (◌≡◌ {A = User × Fate}
          (v, (if cidr_allowed nip v.remote (parse_cidrs nip cs) then proxied else refused))
          (u, proxied))
        ↔ ((v ≡ u) × IsWelcome cs u.remote)
  fate-proxied cs u v valid =
      let welcome = cidr_allowed-IsWelcome cs v.remote valid in
      elim (Bool-cases (cidr_allowed nip v.remote (parse_cidrs nip cs))) [
        | inl yes_ ↦ rw yes_ (
          λ e.
              (let same : v ≡ u = cc in
                (same, subst (λ (x : User). IsWelcome cs x.remote) same (welcome.0 yes_))),
          λ (same, w). cc,
        )
        | inr no_ ↦ rw no_ (
          λ e. cc,
          λ (same, w). cc (welcome.1 (subst (λ (x : User). IsWelcome cs x.remote) (sym same) w)),
        )
      ]

  accept_loop_iff :
      (cs : List Bytes) (arrivals : List Arrival) (u : User)
      → All (λ c. cidr_ok nip c ≡ true) cs
      → Any (λ e. e ≡ (u, proxied)) (accept_loop nip (parse_cidrs nip cs) arrivals)
        ↔ (Any (λ v. v ≡ u) (before_end arrivals) × IsWelcome cs u.remote)
  unfolding accept_loop
  accept_loop_iff cs [] u valid = (λ h. absurd h, λ (h, w). absurd h)
  accept_loop_iff cs (fails d c ∷ rest) u valid =
      let later = accept_loop_iff cs rest u valid in
      elim (Bool-cases (d || c)) [
        | inl over ↦ rw over (λ h. absurd h, λ (h, w). absurd h)
        | inr goes_on ↦ rw goes_on later
      ]
  accept_loop_iff cs (arrives v ∷ rest) u valid =
      let later = accept_loop_iff cs rest u valid in
      let first = fate-proxied cs u v valid in
      (
        λ h. elim h [
          | inl now ↦ let (same, w) = first.0 now in (inl same, w)
          | inr then_ ↦ let (come, w) = later.0 then_ in (inr come, w)
        ],
        λ (h, w). elim h [
          | inl same ↦ inl (first.1 (same, w))
          | inr come ↦ inr (later.1 (come, w))
        ],
      )

  -- With a validated allowlist, exactly those users reach proxyUser that arrive before the listener's end and are welcome:
  -- there is no allowlist, or their address can be read and some configured prefix contains it.
  pub accept_users_iff :
      (svc : ServiceEntry) (arrivals : List Arrival) (u : User)
      → All (λ c. cidr_ok nip c ≡ true) svc.allowed_user_cidrs
      → Any (λ e. e ≡ (u, proxied)) (accept_users nip svc arrivals)
        ↔ (Any (λ v. v ≡ u) (before_end arrivals) × IsWelcome svc.allowed_user_cidrs u.remote)
  unfolding accept_users
  accept_users_iff svc arrivals u valid = accept_loop_iff svc.allowed_user_cidrs arrivals u valid
