-- ===== src/Tests/Configs.antt =====
-- A configuration with one DNS route and one TLS listener, on a platform whose texts of addresses are
-- their numbers.
use cotten_router.Prelude.{
  ℕ, ◌+◌, ◌-◌, ◌≡◌, refl, true, false, Option, none, some, [], ◌∷◌, map, ltb, ◌==◌, if◌then◌else◌,
  Bytes, codes, bytes_eq, ok, lookup, insert, Bytes_eq, nat_eq,
}
use cotten_router.Config.Limits.{Limits}
use cotten_router.Config.Types.{Route, TlsListener, Settings}
use cotten_router.Config.Platform.{Ip, ip4, ip6, SockAddr, Platform}
use cotten_router.Config.Validate.{check_numbers, apply_config_defaults, check_addresses, validate}
use cotten_router.Config.Validate.Accepted.{Accepted, validate-Accepted}
use cotten_router.Config.Loops.{trim_brackets_left, trim_brackets_right}
use cotten_router.Config.Defaults.{
  validate_limits, aggregate_defaults, class_defaults, apply_defaults,
}
use cotten_router.Config.Listeners.{
  validate_tls_listeners, first_ports, validate_listeners, validate_tls_routes,
  validate_tcp_backend,
}
use cotten_router.Config.Loops.{
  validate_no_self_routing, check_routes, check_listeners, check_tls_routes, points_back,
  own_udp_ports, own_tcp_ports, own_ports, own_socket,
}
use cotten_router.Config.Defaults.{class_defaults, aggregate_defaults, validate_limits}
use cotten_router.Config.Validate.{
  check_addresses, apply_config_defaults, check_numbers, validate_routes, validate_domains,
  validate_route_tcp, validate_verify,
}
use cotten_router.Dns.Text.{
  normalize_domain, trim_space, trim_left, trim_right, to_lower, trim_suffix, has_suffix,
  trim_prefix,
}
use cotten_router.Tests.Wire.{ascii}

-- The port, the kind of the host, the number of the IP and the byte 0. The machine has one zone.
abbrev kind : Option Ip → ℕ
kind none = 0
kind (some (ip4 n)) = 1
kind (some (ip6 n)) = 2

abbrev ip_number : Option Ip → ℕ
ip_number none = 0
ip_number (some (ip4 n)) = n
ip_number (some (ip6 n)) = n

abbrev kind_in : Bytes → Option Ip → ℕ
kind_in [] ip = kind ip
kind_in (_ ∷ _) ip = 3 + kind ip

abbrev pub text : SockAddr → Bytes
text a = a.port ∷ kind_in a.zone a.ip ∷ ip_number a.ip ∷ 0 ∷ []

abbrev split : Bytes → Option (Bytes × Bytes)
split (p ∷ k ∷ n ∷ z ∷ []) = some (k ∷ n ∷ z ∷ [], p ∷ [])
split _ = none

abbrev ip_of : ℕ → ℕ → Option Ip
ip_of k n = if k == 1 then some (ip4 n) else if k == 2 then some (ip6 n) else none

abbrev host_of : Bytes → Option Ip
host_of (k ∷ n ∷ z ∷ []) = ip_of k n
host_of _ = none

abbrev number : Bytes → Option ℕ
number (p ∷ []) = some p
number _ = none

abbrev pub address_of : Bytes → Option SockAddr
address_of (p ∷ k ∷ n ∷ z ∷ []) = some (
    if ltb k 3
    then record { ip = ip_of k n; port = p; zone = [] }
    else record { ip = ip_of (k - 3) n; port = p; zone = codes "lo" })
address_of _ = none

abbrev pub platform : Platform
platform = record {
  resolve_udp = address_of;
  resolve_tcp = address_of;
  text = text;
  split_host_port = split;
  to_number = number;
  parse_ip = host_of;
  is_cidr = λ s. false;
  read_file = λ s. none;
  pem_block = λ s. none;
  sha256 = λ s. s;
  unhex = λ s. none;
  cpus = 4;
}

abbrev unset : Limits ℕ
unset = record {
  udp_workers = 0;
  udp_queue = 0;
  global_queries_per_second = 0;
  global_query_burst = 0;
  per_ip_queries_per_second = 0;
  per_ip_query_burst = 0;
  per_ip_ingress_bytes_per_second = 0;
  per_ip_ingress_burst_bytes = 0;
  max_tracked_ips = 0;
  max_tcp_connections_per_ip = 0;
  max_tls_connections_per_ip = 0;
  max_tcp_queries_per_connection = 0;
  max_tcp_inflight_per_connection = 0;
  response_bytes_per_second = 0;
  response_burst_bytes = 0;
  ingress_bytes_per_second = 0;
  ingress_burst_bytes = 0;
  aggregate_response_bytes_per_second = 0;
  aggregate_response_burst_bytes = 0;
  aggregate_ingress_bytes_per_second = 0;
  aggregate_ingress_burst_bytes = 0;
  trusted_resolver_cidrs = [];
}

abbrev pub loopback : ℕ → SockAddr
loopback port = record { ip = some (ip4 2130706433); port = port; zone = [] }

abbrev anywhere : ℕ → SockAddr
anywhere port = record { ip = none; port = port; zone = [] }

abbrev pub given : Settings
given = record {
  listen_udp = text (anywhere 53);
  listen_tcp = text (anywhere 53);
  admin_listen = text (loopback 9088);
  query_timeout_ms = 0;
  tls_idle_timeout_ms = 0;
  max_packet_size = 0;
  max_tcp_message_size = 0;
  max_pending_per_backend = 0;
  max_tcp_connections = 0;
  max_tls_connections_per_protocol = 0;
  unmatched_action = [];
  allow_remote_backends = false;
  slipgate_configs = [];
  limits = unset;
  tls_listeners =
      record {
        name = codes " tls";
        listen = text (anywhere 443);
        default_backend = text (loopback 8443);
        default_route_name = codes "site";
        routes = [];
      }
      ∷ [];
  routes =
      record {
        name = codes "tunnel ";
        domains = codes "T.example." ∷ [];
        backend = text (loopback 5300);
        tcp_backend = [];
        verify = none;
        verify_key = [];
      }
      ∷ [];
}

abbrev tls_listener : TlsListener
tls_listener = record {
  name = codes "tls";
  listen = text (anywhere 443);
  default_backend = text (loopback 8443);
  default_route_name = codes "site";
  routes = [];
}

abbrev pub route : Route
route = record {
  name = codes "tunnel";
  domains = codes "t.example" ∷ [];
  backend = text (loopback 5300);
  tcp_backend = text (loopback 5300);
  verify = none;
  verify_key = [];
}

abbrev pub valid : Settings
valid = record given {
  query_timeout_ms = 10000;
  tls_idle_timeout_ms = 900000;
  max_packet_size = 16384;
  max_tcp_message_size = 16384;
  max_pending_per_backend = 8192;
  max_tcp_connections = 256;
  max_tls_connections_per_protocol = 128;
  unmatched_action = codes "drop";
  limits = apply_defaults 4 unset;
  tls_listeners = tls_listener ∷ [];
  routes = route ∷ [];
}

pub given-valid : validate ascii platform given ≡ ok valid
unfolding validate check_addresses apply_config_defaults apply_defaults class_defaults
    aggregate_defaults validate_limits check_numbers validate_tls_listeners first_ports
    validate_listeners validate_tls_routes validate_tcp_backend validate_routes validate_domains
    validate_route_tcp validate_verify validate_no_self_routing check_routes check_listeners
    check_tls_routes points_back own_udp_ports own_tcp_ports own_ports own_socket trim_brackets_left
    trim_brackets_right normalize_domain trim_space trim_left trim_right to_lower trim_suffix
    has_suffix bytes_eq trim_prefix lookup insert
given-valid = refl

validate-Accepted_example : Accepted ascii platform valid
validate-Accepted_example = validate-Accepted ascii platform given valid given-valid

-- The loopback address of IPv6, in a zone.
abbrev zoned : ℕ → SockAddr
zoned port = record { ip = some (ip6 1); port = port; zone = codes "lo" }

abbrev with_backend : Bytes → Route → Route
with_backend backend r = record r { backend = backend; tcp_backend = backend }

abbrev to_backend : Bytes → Settings → Settings
to_backend backend c = record c { routes = map (with_backend backend) c.routes }

abbrev remote : Settings → Settings
remote c = record c { allow_remote_backends = true }

hostless_accepted :
    validate ascii platform (remote (to_backend (text (anywhere 53)) given))
    ≡ ok (remote (to_backend (text (anywhere 53)) valid))
unfolding validate check_addresses apply_config_defaults apply_defaults class_defaults
    aggregate_defaults validate_limits check_numbers validate_tls_listeners first_ports
    validate_listeners validate_tls_routes validate_tcp_backend validate_routes validate_domains
    validate_route_tcp validate_verify validate_no_self_routing check_routes check_listeners
    check_tls_routes points_back own_udp_ports own_tcp_ports own_ports own_socket trim_brackets_left
    trim_brackets_right normalize_domain trim_space trim_left trim_right to_lower trim_suffix
    has_suffix bytes_eq trim_prefix lookup insert
hostless_accepted = refl
