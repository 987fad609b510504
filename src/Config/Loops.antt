-- ===== src/Config/Loops.antt =====
-- validateNoSelfRouting and ownSocket of internal/config/config.go.
use cotten_router.Prelude.{
  ℕ, Bool, true, false, not, ◌&&◌, ◌||◌, Option, none, some, List, [], ◌∷◌, map, ◌==◌,
  if◌then◌else◌, Bytes, codes, bytes_eq, Result, ok, ◌>>=◌, reject, Bytes_eq, nat_eq,
}
use cotten_router.Config.Types.{Route, TlsRoute, TlsListener, Settings}
use cotten_router.Config.Platform.{
  Ip, SockAddr, is_loopback, is_unspecified, Platform, is_empty, ConfigError, routes_to_itself,
}

unfoldable pub own_socket : Option Ip → Bool
own_socket none = true
own_socket (some ip) = is_unspecified ip || is_loopback ip

-- ports[port]
abbrev pub has_port : ℕ → List ℕ → Bool
has_port port [] = false
has_port port (p ∷ ports) = p == port || has_port port ports

-- The port of an address that the router listens on, where it answers on loopback.
abbrev pub own_port : Option SockAddr → List ℕ → List ℕ
own_port none ports = ports
own_port (some a) ports = if own_socket a.ip then a.port ∷ ports else ports

-- strings.Trim(host, "[]")
abbrev is_bracket : ℕ → Bool
is_bracket b = b == b'[' || b == b']'

unfoldable pub trim_brackets_left : Bytes → Bytes
trim_brackets_left [] = []
trim_brackets_left (b ∷ s) = let rest = trim_brackets_left s in if is_bracket b then rest else b ∷ s

unfoldable pub trim_brackets_right : Bytes → Bytes
trim_brackets_right [] = []
trim_brackets_right (b ∷ s) = elim (trim_brackets_right s) [
  | [] ↦ if is_bracket b then [] else b ∷ []
  | d ∷ r ↦ b ∷ d ∷ r
]

abbrev pub trim_brackets : Bytes → Bytes
trim_brackets host = trim_brackets_right (trim_brackets_left host)

module _ (pf : Platform) where
  unfoldable pub own_udp_ports : Settings → List ℕ
  own_udp_ports c = own_port (pf.resolve_udp c.listen_udp) []

  -- The loop over the listen addresses; one that is empty is passed over.
  unfoldable pub own_ports : List Bytes → List ℕ
  own_ports [] = []
  own_ports (listen ∷ listens) =
      let rest = own_ports listens in
      if is_empty listen then rest else own_port (pf.resolve_tcp listen) rest

  unfoldable pub own_tcp_ports : Settings → List ℕ
  own_tcp_ports c = own_ports (c.listen_tcp ∷ map (λ (l : TlsListener). l.listen) c.tls_listeners)

  -- What `check` looks for.
  abbrev pub is_own_host : Bytes → Bool
  is_own_host host = elim (pf.parse_ip (trim_brackets host)) [
    | none ↦ false
    | some ip ↦ own_socket (some ip)
  ]

  abbrev pub is_own_address : List ℕ → Option (Bytes × Bytes) → Bool
  is_own_address ports none = false
  is_own_address ports (some (host, port)) = elim (pf.to_number port) [
    | none ↦ false
    | some n ↦ has_port n ports && is_own_host host
  ]

  unfoldable pub points_back : List ℕ → Bytes → Bool
  points_back ports backend =
      not (is_empty backend || bytes_eq backend (codes "disabled"))
      && is_own_address ports (pf.split_host_port backend)

  unfoldable pub check_routes : List ℕ → List ℕ → List Route → Result ConfigError (Unit {0})
  check_routes udp tcp [] = ok tt
  check_routes udp tcp (r ∷ routes) = do
    _ ← reject (points_back udp r.backend) routes_to_itself
    _ ← reject (points_back tcp r.tcp_backend) routes_to_itself
    check_routes udp tcp routes

  unfoldable pub check_tls_routes : List ℕ → List TlsRoute → Result ConfigError (Unit {0})
  check_tls_routes tcp [] = ok tt
  check_tls_routes tcp (r ∷ routes) = do
    _ ← reject (points_back tcp r.backend) routes_to_itself
    check_tls_routes tcp routes

  unfoldable pub check_listeners : List ℕ → List TlsListener → Result ConfigError (Unit {0})
  check_listeners tcp [] = ok tt
  check_listeners tcp (l ∷ ls) = do
    _ ← reject (points_back tcp l.default_backend) routes_to_itself
    _ ← check_tls_routes tcp l.routes
    check_listeners tcp ls

  unfoldable pub validate_no_self_routing : Settings → Result ConfigError (Unit {0})
  validate_no_self_routing c = do
    _ ← check_routes (own_udp_ports c) (own_tcp_ports c) c.routes
    check_listeners (own_tcp_ports c) c.tls_listeners
