-- ===== src/Config/Slipgate.antt =====
-- internal/config/slipgate.go: LoadSlipGateRoutes, from the file's decoded content on, and
-- NewFromSlipGate. A nil pointer is `none`.
mod Decimal
pub mod Imports
pub mod Pinned
use cotten_router.Prelude.{
  ℕ, zero, suc, ◌+◌, ◌-◌, ◌*◌, ◌/◌, ◌%◌, ◌^◌, ◌≤◌, ◌<◌, ◌≡◌, refl, sym, ap, subst, ◌∙◌, ◌≢◌, ◌↔◌,
  ◌⊎◌, inl, inr, Bool, true, false, not, ◌&&◌, ◌||◌, Option, none, some, List, [], ◌∷◌, ◌++◌, map,
  append_assoc, append-nil, arith, ltb, leb, ltb→lt, lt→ltb, leb→le, le→leb, ==_iff, ◌==◌,
  if◌then◌else◌, Bool-cases, Option-cases, Eq, Bytes, codes, bytes_eq, bytes_eq_iff, bytes_eq_refl,
  length, get_elem?, set, take, drop, all, All, length-append, length-take, length-drop, length-set,
  take-append-drop, take-length-append, drop-length-append, drop-drop, Result, ok, err, panic,
  no_fuel, ◌>>=◌, ◌>>◌, reject, or_err, >>=-ok, reject-ok, ok-inj, or_err-ok, byte_at, slice,
  u16_at, byte_at-drop, u16_at-drop, slice-drop, bit, high_byte, low_byte, put_u16, clear_bit,
  set_bit, clear_low, get_or, Assoc, lookup, insert, erase, lookup-insert, lookup-erase,
  length-erase-le, length-erase-lt, length-insert_new, length-insert_old, In, In-append_left,
  In-append_right, All-In, drop-get_or, get_or-length-append, lookup-insert_self, length-insert-le,
  length-erase-lt_of_In, Distinct, insert-Distinct, erase-Distinct, In-lookup, lookup-In, beq-ne,
  lookup-insert_ne, lookup-erase_ne, lookup-erase_self, Bytes_eq, byte_at-ok, u16_at-ok, slice-ok,
  if_cases, if-map, if-congr, nat_eq, count, count-append, erase_absent, count-erase,
  count-insert_new, insert-All, erase-All, lookup-All, All-imp, lookup_bound, AllValues,
  lookup-AllValues, insert-AllValues, erase-AllValues,
}
use cotten_router.Dns.Text.{Unicode}
use cotten_router.Config.Limits.{Limits}
use cotten_router.Config.Types.{VerifyConfig, Route, Settings}
use cotten_router.Config.Platform.{Platform, is_empty, ConfigError}
use cotten_router.Config.Validate.{load_verify_key, outside, validate}

-- The types of the fields DNSTT and VayDNS.
pub record TunnelKey : Type 0 where
  pub mtu : ℕ
  pub public_key : Bytes

pub record SlipGateTunnel : Type 0 where
  pub tag : Bytes
  pub transport : Bytes
  pub domain : Bytes
  pub port : ℕ
  pub enabled : Bool
  pub dnstt : Option TunnelKey
  pub vaydns : Option TunnelKey
  pub slipstream : Option Bytes

-- What the file may be refused for, and what the validation may refuse behind it.
pub data SlipGateError : Type 0 where
  unreadable undecodable invalid_tunnel certificate : SlipGateError
  refused : ConfigError → SlipGateError

-- slipGateDNSTransports
unfoldable pub is_dns_transport : Bytes → Bool
is_dns_transport t =
    bytes_eq t (codes "dnstt")
    || bytes_eq t (codes "slipstream")
    || bytes_eq t (codes "vaydns")
    || bytes_eq t (codes "soar")
    || bytes_eq t (codes "external")

-- %d for a number that is not negative; each round takes a digit, and 64 bits have 20 at most.
unfoldable pub digits : ℕ → ℕ → Bytes
digits zero n = []
digits (suc fuel) n =
    let front = digits fuel (n / 10) in
    if ltb n 10 then (48 + n) ∷ [] else front ++ ((48 + n % 10) ∷ [])

-- hex.EncodeToString
abbrev pub hex_digit : ℕ → ℕ
hex_digit n = if ltb n 10 then 48 + n else 87 + n

unfoldable pub hex_text : Bytes → Bytes
hex_text [] = []
hex_text (b ∷ s) = hex_digit (b / 16) ∷ hex_digit (b % 16) ∷ hex_text s

abbrev pub pinned_key : Option TunnelKey → Option VerifyConfig
pinned_key none = none
pinned_key (some k) =
    if is_empty k.public_key
    then none
    else some (record { key = k.public_key; cert_file = []; mtu = k.mtu })

abbrev pub of_validation : {A : Type 0} → Result ConfigError A → Result SlipGateError A
of_validation (ok a) = ok a
of_validation (err e) = err (refused e)
of_validation panic = panic
of_validation no_fuel = no_fuel

-- Limits{} and Config{}
abbrev zero_limits : Limits ℕ
zero_limits = record {
  udp_workers = 0;
  udp_queue = 0;
  global_queries_per_second = 0;
  global_query_burst = 0;
  per_ip_queries_per_second = 0;
  per_ip_query_burst = 0;
  per_ip_ingress_bytes_per_second = 0;
  per_ip_ingress_burst_bytes = 0;
  max_tracked_ips = 0;
  max_tcp_connections_per_ip = 0;
  max_tls_connections_per_ip = 0;
  max_tcp_queries_per_connection = 0;
  max_tcp_inflight_per_connection = 0;
  response_bytes_per_second = 0;
  response_burst_bytes = 0;
  ingress_bytes_per_second = 0;
  ingress_burst_bytes = 0;
  aggregate_response_bytes_per_second = 0;
  aggregate_response_burst_bytes = 0;
  aggregate_ingress_bytes_per_second = 0;
  aggregate_ingress_burst_bytes = 0;
  trusted_resolver_cidrs = [];
}

abbrev zero_settings : Settings
zero_settings = record {
  listen_udp = [];
  listen_tcp = [];
  admin_listen = [];
  query_timeout_ms = 0;
  tls_idle_timeout_ms = 0;
  max_packet_size = 0;
  max_tcp_message_size = 0;
  max_pending_per_backend = 0;
  max_tcp_connections = 0;
  max_tls_connections_per_protocol = 0;
  unmatched_action = [];
  allow_remote_backends = false;
  slipgate_configs = [];
  limits = zero_limits;
  tls_listeners = [];
  routes = [];
}

module _ (u : Unicode) (pf : Platform) where
  -- The case "slipstream" of the switch.
  unfoldable pub pinned_certificate : Option Bytes → Result SlipGateError (Option VerifyConfig)
  pinned_certificate none = ok none
  pinned_certificate (some cert) = if is_empty cert then ok none else do
    key ← or_err (load_verify_key u pf (record { key = []; cert_file = cert; mtu = 0 })) certificate
    ok (some (record { key = hex_text key; cert_file = []; mtu = 0 }))

  -- The switch on the transport.
  unfoldable pub tunnel_verify : SlipGateTunnel → Result SlipGateError (Option VerifyConfig)
  tunnel_verify t =
      if bytes_eq t.transport (codes "dnstt")
      then ok (pinned_key t.dnstt)
      else if bytes_eq t.transport (codes "vaydns")
      then ok (pinned_key t.vaydns)
      else if bytes_eq t.transport (codes "slipstream")
      then pinned_certificate t.slipstream
      else ok none

  -- The route of a tunnel that is not passed over. The port is an int of 64 bits.
  unfoldable pub tunnel_route : SlipGateTunnel → Result SlipGateError Route
  tunnel_route t = do
    _ ← reject (is_empty t.tag || is_empty t.domain || outside 1 65535 t.port) invalid_tunnel
    verify ← tunnel_verify t
    ok (record {
      name = codes "slipgate:" ++ t.tag;
      domains = t.domain ∷ [];
      backend = codes "127.0.0.1:" ++ digits 20 (t.port % 2 ^ 64);
      tcp_backend = codes "udp";
      verify = verify;
      verify_key = [];
    })

  -- The loop over the tunnels.
  unfoldable pub tunnel_routes : List SlipGateTunnel → Result SlipGateError (List Route)
  tunnel_routes [] = ok []
  tunnel_routes (t ∷ ts) =
      let rest = tunnel_routes ts in
      if not t.enabled || not (is_dns_transport t.transport)
      then rest
      else (do route ← tunnel_route t; routes ← rest; ok (route ∷ routes))

  module _ (decode : Bytes → Option (List SlipGateTunnel)) where
    -- `decode` is json.Unmarshal into slipGateConfig.
    unfoldable pub load_slip_gate_routes : Bytes → Result SlipGateError (List Route)
    load_slip_gate_routes path = do
      data_read ← or_err (pf.read_file path) unreadable
      tunnels ← or_err (decode data_read) undecodable
      tunnel_routes tunnels

    -- NewFromSlipGate
    unfoldable pub new_from_slip_gate : Bytes → Result SlipGateError Settings
    new_from_slip_gate path = do
      routes ← load_slip_gate_routes path
      of_validation (
          validate u pf (record zero_settings {
            listen_udp = codes "0.0.0.0:53";
            listen_tcp = codes "0.0.0.0:53";
            routes = routes;
          }))
