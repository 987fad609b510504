-- ===== src/Tests/Loads.antt =====
-- A configuration that imports one tunnel of a SlipGate file beside it.
use cotten_router.Prelude.{
  ◌≡◌, refl, true, false, none, some, [], ◌∷◌, ◌++◌, if◌then◌else◌, codes, bytes_eq, ok, lookup,
  insert, Bytes_eq, nat_eq,
}
use cotten_router.Config.Types.{Route, Settings}
use cotten_router.Config.Platform.{Platform}
use cotten_router.Config.Validate.{
  load_verify_key, check_numbers, apply_config_defaults, check_addresses, validate,
}
use cotten_router.Config.Loops.{trim_brackets_left, trim_brackets_right}
use cotten_router.Config.Defaults.{
  validate_limits, aggregate_defaults, class_defaults, apply_defaults,
}
use cotten_router.Config.Listeners.{
  validate_tls_listeners, first_ports, validate_listeners, validate_tls_routes,
  validate_tcp_backend,
}
use cotten_router.Config.Loops.{
  validate_no_self_routing, check_routes, check_listeners, check_tls_routes, points_back,
  own_udp_ports, own_tcp_ports, own_ports, own_socket,
}
use cotten_router.Config.Defaults.{class_defaults, aggregate_defaults, validate_limits}
use cotten_router.Config.Validate.{
  check_addresses, apply_config_defaults, check_numbers, validate_routes, validate_domains,
  validate_route_tcp, validate_verify,
}
use cotten_router.Dns.Text.{
  normalize_domain, trim_space, trim_left, trim_right, to_lower, trim_suffix, has_suffix,
  trim_prefix,
}
use cotten_router.Tests.Wire.{ascii}
use cotten_router.Config.Slipgate.{
  SlipGateTunnel, load_slip_gate_routes, tunnel_routes, tunnel_route, tunnel_verify,
  is_dns_transport, digits,
}
use cotten_router.Config.Load.{Decoding, load, import_all, Loaded, load-Loaded}
use cotten_router.Tests.Configs.{platform, text, address_of, loopback, given, valid}

-- The file of the configuration and the SlipGate file, which the decoding tells apart by a byte.
abbrev files : Platform
files = record platform {
  resolve_udp =
      λ s. if bytes_eq s (codes "127.0.0.1:5310") then some (loopback 5310) else address_of s;
  read_file = λ s.
      if bytes_eq s (codes "router.json")
      then some (0 ∷ [])
      else if bytes_eq s (codes "etc/sg.json")
      then some (1 ∷ [])
      else none;
  unhex = λ s. some (171 ∷ []);
}

abbrev importing : Settings
importing = record given { slipgate_configs = codes "sg.json" ∷ [] }

abbrev tunnel : SlipGateTunnel
tunnel = record {
  tag = codes "one";
  transport = codes "dnstt";
  domain = codes "u.example";
  port = 5310;
  enabled = true;
  dnstt = some (record { mtu = 1232; public_key = codes "ab" });
  vaydns = none;
  slipstream = none;
}

abbrev decoding : Decoding
decoding = record {
  settings = λ s. if bytes_eq s (0 ∷ []) then some importing else none;
  tunnels = λ s. if bytes_eq s (1 ∷ []) then some (tunnel ∷ []) else none;
  is_absolute = λ s. false;
  join = λ a b. a ++ codes "/" ++ b;
  directory = λ s. codes "etc";
}

abbrev imported : Route
imported = record {
  name = codes "slipgate:one";
  domains = codes "u.example" ∷ [];
  backend = text (loopback 5310);
  tcp_backend = codes "udp";
  verify = some (record { key = codes "ab"; cert_file = []; mtu = 1232 });
  verify_key = 171 ∷ [];
}

abbrev loaded : Settings
loaded = record valid {
  slipgate_configs = codes "sg.json" ∷ [];
  routes = valid.routes ++ (imported ∷ []);
}

router_json : load ascii files decoding (codes "router.json") ≡ ok loaded
unfolding load load_slip_gate_routes load_verify_key tunnel_routes tunnel_route tunnel_verify
    is_dns_transport digits import_all validate check_addresses apply_config_defaults apply_defaults
    class_defaults aggregate_defaults validate_limits check_numbers validate_tls_listeners
    first_ports validate_listeners validate_tls_routes validate_tcp_backend validate_routes
    validate_domains validate_route_tcp validate_verify validate_no_self_routing check_routes
    check_listeners check_tls_routes points_back own_udp_ports own_tcp_ports own_ports own_socket
    trim_brackets_left trim_brackets_right normalize_domain trim_space trim_left trim_right to_lower
    trim_suffix has_suffix bytes_eq trim_prefix lookup insert
router_json = refl

load-Loaded_example : Loaded ascii files decoding (codes "router.json") loaded
load-Loaded_example = load-Loaded ascii files decoding (codes "router.json") loaded router_json
