-- ===== src/Tunnel/Users.antt =====
-- acceptUsers of internal/tunnel/server.go: the loop that takes users from a service's listener.
pub mod Admitted
use passage.Base.{ℕ, Bytes, List, [], ◌∷◌, Bool, ◌||◌, if◌then◌else◌}
use passage.Config.Types.{ServiceEntry}
use passage.Tunnel.Cidr.{Netip, parse_cidrs, cidr_allowed}

-- A user's connection: its RemoteAddr and its number.
pub record User : Type 0 where
  pub remote : Bytes
  pub conn : ℕ

-- What ln.Accept() returns: a connection, or an error, with whether the context is done and whether the error is net.ErrClosed.
pub data Arrival : Type 0 where
  arrives : User → Arrival
  fails : Bool → Bool → Arrival

-- What becomes of a user: proxyUser is started, or the connection is closed.
pub data Fate : Type 0 where
  proxied refused : Fate

module _ {Prefix Addr : Type 0} (nip : Netip Prefix Addr) where
  -- An error ends the loop if the context is done or the listener closed; any other is logged.
  unfoldable pub accept_loop : List Prefix → List Arrival → List (User × Fate)
  accept_loop allowed [] = []
  accept_loop allowed (fails ctx_done is_closed ∷ rest) =
      let later = accept_loop allowed rest in if ctx_done || is_closed then [] else later
  accept_loop allowed (arrives u ∷ rest) =
      (u, (if cidr_allowed nip u.remote allowed then proxied else refused))
      ∷ accept_loop allowed rest

  unfoldable pub accept_users : ServiceEntry → List Arrival → List (User × Fate)
  unfolding accept_loop
  accept_users svc arrivals = accept_loop (parse_cidrs nip svc.allowed_user_cidrs) arrivals
