-- ===== src/Config/Validate.antt =====
-- Config.applyDefaults, Config.Validate and loadVerifyKey of internal/config/config.go. Validate changes
-- the configuration through its pointer; here it gives the changed one. Where it gives an error, no
-- caller uses what it has changed until then.
pub mod Names
pub mod Routes
pub mod Accepted
pub mod Loopless
use cotten_router.Prelude.{
  ℕ, zero, suc, ◌+◌, ◌-◌, ◌*◌, ◌/◌, ◌%◌, ◌^◌, ◌≤◌, ◌<◌, ◌≡◌, refl, sym, ap, subst, ◌∙◌, ◌≢◌, ◌↔◌,
  ◌⊎◌, inl, inr, Bool, true, false, not, ◌&&◌, ◌||◌, Option, none, some, List, [], ◌∷◌, ◌++◌, map,
  append_assoc, append-nil, arith, ltb, leb, ltb→lt, lt→ltb, leb→le, le→leb, ==_iff, ◌==◌,
  if◌then◌else◌, Bool-cases, Option-cases, Eq, Bytes, codes, bytes_eq, bytes_eq_iff, length,
  get_elem?, set, take, drop, all, All, length-append, length-take, length-drop, length-set,
  take-append-drop, take-length-append, drop-length-append, drop-drop, Result, ok, err, panic,
  no_fuel, ◌>>=◌, ◌>>◌, reject, or_err, >>=-ok, reject-ok, ok-inj, or_err-ok, byte_at, slice,
  u16_at, byte_at-drop, u16_at-drop, slice-drop, bit, high_byte, low_byte, put_u16, clear_bit,
  set_bit, clear_low, get_or, Assoc, lookup, insert, erase, lookup-insert, lookup-erase,
  length-erase-le, length-erase-lt, length-insert_new, length-insert_old, In, In-append_left,
  In-append_right, All-In, drop-get_or, get_or-length-append, lookup-insert_self, length-insert-le,
  length-erase-lt_of_In, Distinct, insert-Distinct, erase-Distinct, In-lookup, lookup-In, beq-ne,
  lookup-insert_ne, lookup-erase_ne, lookup-erase_self, Bytes_eq, byte_at-ok, u16_at-ok, slice-ok,
  if_cases, if-map, if-congr, nat_eq, count, count-append, erase_absent, count-erase,
  count-insert_new, insert-All, erase-All, lookup-All, All-imp, lookup_bound, AllValues,
  lookup-AllValues, insert-AllValues, erase-AllValues,
}
use cotten_router.Dns.Text.{Unicode, trim_space, normalize_domain}
use cotten_router.Config.Defaults.{less, set_default, apply_defaults, validate_limits}
use cotten_router.Config.Types.{VerifyConfig, Route, Settings}
use cotten_router.Config.Platform.{
  Platform, is_local, is_empty, ConfigError, invalid_listen_udp, invalid_listen_tcp,
  invalid_admin_listen, admin_not_loopback, query_timeout, tls_idle_timeout, packet_size,
  tcp_message_size, pending, tcp_connections, tls_connections, unmatched_action, no_route,
  limits_refused, route_without_name, route_without_domain, invalid_backend, backend_not_loopback,
  invalid_tcp_backend, tcp_backend_not_loopback, invalid_verify, verify_mtu_range, invalid_domain,
  duplicate_domain,
}
use cotten_router.Config.Listeners.{same, validate_tls_listeners}
use cotten_router.Config.Loops.{validate_no_self_routing}

abbrev pub text_default : Bytes → Bytes → Bytes
text_default value default = if is_empty value then default else value

unfoldable pub apply_config_defaults : ℕ → Settings → Settings
apply_config_defaults cpus c = record c {
  listen_udp = text_default c.listen_udp (codes "0.0.0.0:53");
  admin_listen = text_default c.admin_listen (codes "127.0.0.1:9088");
  query_timeout_ms = set_default c.query_timeout_ms 10000;
  tls_idle_timeout_ms = set_default c.tls_idle_timeout_ms 900000;
  max_packet_size = set_default c.max_packet_size (16 * 1024);
  max_tcp_message_size = set_default c.max_tcp_message_size (16 * 1024);
  max_pending_per_backend = set_default c.max_pending_per_backend 8192;
  max_tcp_connections = set_default c.max_tcp_connections 256;
  max_tls_connections_per_protocol = set_default c.max_tls_connections_per_protocol 128;
  unmatched_action = text_default c.unmatched_action (codes "drop");
  limits = apply_defaults cpus c.limits;
}

-- `x < low || x > high`
abbrev pub outside : ℕ → ℕ → ℕ → Bool
outside low high x = less x low || less high x

unfoldable pub check_numbers : Settings → Result ConfigError (Unit {0})
check_numbers c = do
  _ ← reject (outside 100 600000 c.query_timeout_ms) query_timeout
  _ ← reject (outside 1000 86400000 c.tls_idle_timeout_ms) tls_idle_timeout
  _ ← reject (outside 512 (16 * 1024) c.max_packet_size) packet_size
  _ ← reject (outside 512 (16 * 1024) c.max_tcp_message_size) tcp_message_size
  _ ← reject (outside 1 65535 c.max_pending_per_backend) pending
  _ ← reject (outside 1 1000000 c.max_tcp_connections) tcp_connections
  reject (outside 1 1000000 c.max_tls_connections_per_protocol) tls_connections

abbrev pub is_none : {A : Type 0} → Option A → Bool
is_none none = true
is_none (some a) = false

module _ (pf : Platform) where
  -- The addresses; the result is the admin address as it is written back.
  unfoldable pub check_addresses : Settings → Result ConfigError Bytes
  check_addresses c = do
    _ ← reject (is_none (pf.resolve_udp c.listen_udp)) invalid_listen_udp
    _ ←
        reject (not (is_empty c.listen_tcp) && is_none (pf.resolve_tcp c.listen_tcp))
          invalid_listen_tcp
    admin ← or_err (pf.resolve_tcp c.admin_listen) invalid_admin_listen
    _ ← reject (not (is_local admin.ip)) admin_not_loopback
    ok (pf.text admin)

module _ (u : Unicode) (pf : Platform) where
  unfoldable pub key_from_file : Bytes → Option Bytes
  key_from_file file = elim (pf.read_file file) [
    | none ↦ none
    | some content ↦ elim (pf.pem_block content) [
      | none ↦ none
      | some block ↦ some (pf.sha256 block)
    ]
  ]

  abbrev pub key_text : Bytes → Bytes
  key_text value = elim (pf.read_file value) [ none ↦ value | some content ↦ trim_space u content ]

  abbrev pub nonempty : Option Bytes → Option Bytes
  nonempty none = none
  nonempty (some key) = if is_empty key then none else some key

  -- loadVerifyKey; `none` is any of its errors.
  unfoldable pub load_verify_key : VerifyConfig → Option Bytes
  load_verify_key v =
      if same (is_empty v.key) (is_empty v.cert_file)
      then none
      else if not (is_empty v.cert_file)
      then key_from_file v.cert_file
      else nonempty (pf.unhex (key_text (trim_space u v.key)))

  -- The loop over the domains of a route. `seen` is seenDomains.
  unfoldable pub validate_domains :
      Bytes → Assoc Bytes Bytes → List Bytes → Result ConfigError (Assoc Bytes Bytes × List Bytes)
  validate_domains owner seen [] = ok (seen, [])
  validate_domains owner seen (domain ∷ domains) = do
    normalized ← or_err (normalize_domain u domain) invalid_domain
    _ ← reject (not (is_none (lookup normalized seen))) duplicate_domain
    rest ← validate_domains owner (insert normalized owner seen) domains
    ok (rest.0, normalized ∷ rest.1)

  -- The TCP backend of a route whose UDP backend is written `backend`.
  unfoldable pub validate_route_tcp : Bool → Bytes → Bytes → Result ConfigError Bytes
  validate_route_tcp allow_remote backend value =
      if is_empty value
      then ok backend
      else if bytes_eq value (codes "disabled") || bytes_eq value (codes "udp")
      then ok value
      else do
        address ← or_err (pf.resolve_tcp value) invalid_tcp_backend
        _ ← reject (not allow_remote && not (is_local address.ip)) tcp_backend_not_loopback
        ok (pf.text address)

  unfoldable pub validate_verify : Route → Result ConfigError Bytes
  validate_verify r = elim r.verify [
    | none ↦ ok r.verify_key
    | some v ↦ do
      key ← or_err (load_verify_key v) invalid_verify
      _ ← reject (outside 0 4096 v.mtu) verify_mtu_range
      ok key
  ]

  -- The loop over the routes.
  unfoldable pub validate_routes :
      Bool → Assoc Bytes Bytes → List Route → Result ConfigError (List Route)
  validate_routes allow_remote seen [] = ok []
  validate_routes allow_remote seen (r ∷ routes) = do
    let name = trim_space u r.name
    _ ← reject (is_empty name) route_without_name
    _ ← reject (length r.domains == 0) route_without_domain
    address ← or_err (pf.resolve_udp r.backend) invalid_backend
    _ ← reject (not allow_remote && not (is_local address.ip)) backend_not_loopback
    tcp_backend ← validate_route_tcp allow_remote (pf.text address) r.tcp_backend
    key ← validate_verify r
    domains ← validate_domains name seen r.domains
    rest ← validate_routes allow_remote domains.0 routes
    ok (
        record r {
          name = name;
          domains = domains.1;
          backend = pf.text address;
          tcp_backend = tcp_backend;
          verify_key = key;
        }
        ∷ rest)

  unfoldable pub validate : Settings → Result ConfigError Settings
  validate given = do
    let c = apply_config_defaults pf.cpus given
    admin ← check_addresses pf c
    _ ← check_numbers c
    reject
        (not (
          bytes_eq c.unmatched_action (codes "drop")
          || bytes_eq c.unmatched_action (codes "refused")))
        unmatched_action
    _ ← reject (not (is_none (validate_limits pf.is_cidr c.limits))) limits_refused
    _ ← reject (length c.routes == 0 && length c.tls_listeners == 0) no_route
    listeners ← validate_tls_listeners u pf (record c { admin_listen = admin })
    routes ← validate_routes c.allow_remote_backends [] c.routes
    let valid = record c { admin_listen = admin; tls_listeners = listeners; routes = routes }
    _ ← validate_no_self_routing pf valid
    ok valid
