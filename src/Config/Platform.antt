-- ===== src/Config/Platform.antt =====
-- What internal/config takes from the machine and from packages of the standard library that depend on
-- it: name resolution, files, certificates. These are parameters.
use cotten_router.Prelude.{
  ℕ, ◌/◌, ◌^◌, Bool, false, Option, none, some, ◌==◌, Bytes, length, nat_eq,
}

-- net.IP, with an IPv4-mapped address as the IPv4 address that it is for every test.
pub data Ip : Type 0 where
  ip4 ip6 : ℕ → Ip

-- net.UDPAddr and net.TCPAddr; `none` is the nil IP of an address without a host, and the zone is that
-- of an IPv6 address, empty where there is none.
pub record SockAddr : Type 0 where
  pub ip : Option Ip
  pub port : ℕ
  pub zone : Bytes

-- IsLoopback and IsUnspecified
abbrev pub is_loopback : Ip → Bool
is_loopback (ip4 n) = n / 2 ^ 24 == 127
is_loopback (ip6 n) = n == 1

abbrev pub is_unspecified : Ip → Bool
is_unspecified (ip4 n) = n == 0
is_unspecified (ip6 n) = n == 0

pub record Platform : Type 0 where
  -- net.ResolveUDPAddr, net.ResolveTCPAddr and the method String of their results
  pub resolve_udp : Bytes → Option SockAddr
  pub resolve_tcp : Bytes → Option SockAddr
  pub text : SockAddr → Bytes
  -- net.SplitHostPort, strconv.Atoi, net.ParseIP, net.ParseCIDR
  pub split_host_port : Bytes → Option (Bytes × Bytes)
  pub to_number : Bytes → Option ℕ
  pub parse_ip : Bytes → Option Ip
  pub is_cidr : Bytes → Bool
  -- os.ReadFile, the block of pem.Decode, sha256.Sum256, hex.DecodeString, runtime.NumCPU
  pub read_file : Bytes → Option Bytes
  pub pem_block : Bytes → Option Bytes
  pub sha256 : Bytes → Bytes
  pub unhex : Bytes → Option Bytes
  pub cpus : ℕ

-- `ip != nil && ip.IsLoopback()`
abbrev pub is_local : Option Ip → Bool
is_local none = false
is_local (some ip) = is_loopback ip

abbrev pub is_empty : Bytes → Bool
is_empty s = length s == 0

-- The errors of Validate and of the functions that it calls.
pub data ConfigError : Type 0 where
  invalid_listen_udp invalid_listen_tcp invalid_admin_listen admin_not_loopback : ConfigError
  query_timeout tls_idle_timeout packet_size tcp_message_size pending tcp_connections : ConfigError
  tls_connections unmatched_action no_route : ConfigError
  limits_refused : ConfigError
  tcp_port_shared listener_incomplete invalid_listener duplicate_listener : ConfigError
  default_incomplete listener_without_route tls_route_incomplete : ConfigError
  invalid_tcp_backend tcp_backend_not_loopback invalid_server_name duplicate_server_name :
      ConfigError
  route_without_name route_without_domain invalid_backend backend_not_loopback : ConfigError
  invalid_verify verify_mtu_range invalid_domain duplicate_domain routes_to_itself : ConfigError
