-- ===== src/Config/Validate/Accepted.antt =====
-- What holds of a configuration that Validate accepts.
use cotten_router.Prelude.{
  ℕ, ◌%◌, ◌^◌, ◌≤◌, ◌<◌, ◌≡◌, sym, subst, ◌⊎◌, inl, inr, true, false, not, ◌&&◌, ◌||◌, none, [],
  arith, ◌==◌, Bool-cases, Bytes, codes, bytes_eq, bytes_eq_iff, length, All, ok, reject, or_err,
  >>=-ok, reject-ok, ok-inj, Bytes_eq, nat_eq,
}
use cotten_router.Dns.Text.{Unicode}
use cotten_router.Config.Defaults.{validate_limits}
use cotten_router.Config.Types.{Settings}
use cotten_router.Config.Platform.{
  Platform, SockAddr, is_local, is_empty, query_timeout, tls_idle_timeout, packet_size,
  tcp_message_size, pending, tcp_connections, unmatched_action, limits_refused, no_route,
  invalid_listen_udp, invalid_listen_tcp, invalid_admin_listen, admin_not_loopback,
}
use cotten_router.Config.Listeners.{validate_tls_listeners}
use cotten_router.Config.Loops.{validate_no_self_routing}
use cotten_router.Config.Validate.{
  apply_config_defaults, outside, check_numbers, is_none, check_addresses, validate_routes,
  validate,
}
use cotten_router.Config.Validate.Names.{Unique}
use cotten_router.Config.Validate.Routes.{all_domains, RouteOk, is_none-eq, validate_routes-Added}

-- The int is in the range.
abbrev pub InRange : ℕ → ℕ → ℕ → Type 0
InRange low high x = (low ≤ x % 2 ^ 64) × (x % 2 ^ 64 ≤ high)

outside-InRange :
    (low high x : ℕ)
    → low < 2 ^ 63
    → high < 2 ^ 63
    → outside low high x ≡ false
    → InRange low high x
outside-InRange low high x l h o = ground (arith, o)

pub record NumbersOk (c : Settings) : Type 0 where
  pub query_timeout : InRange 100 600000 c.query_timeout_ms
  pub tls_idle_timeout : InRange 1000 86400000 c.tls_idle_timeout_ms
  pub packet_size : InRange 512 16384 c.max_packet_size
  pub tcp_message_size : InRange 512 16384 c.max_tcp_message_size
  pub pending : InRange 1 65535 c.max_pending_per_backend
  pub tcp_connections : InRange 1 1000000 c.max_tcp_connections
  pub tls_connections : InRange 1 1000000 c.max_tls_connections_per_protocol

check_numbers-NumbersOk : (c : Settings) (t : Unit {0}) → check_numbers c ≡ ok t → NumbersOk c
unfolding check_numbers
check_numbers-NumbersOk c t h =
    let (_, a, h1) = >>=-ok (reject (outside 100 600000 c.query_timeout_ms) query_timeout) _ h in
    let (_, b, h2) =
      >>=-ok (reject (outside 1000 86400000 c.tls_idle_timeout_ms) tls_idle_timeout) _ h1 in
    let (_, d, h3) = >>=-ok (reject (outside 512 16384 c.max_packet_size) packet_size) _ h2 in
    let (_, e, h4) =
      >>=-ok (reject (outside 512 16384 c.max_tcp_message_size) tcp_message_size) _ h3 in
    let (_, f, h5) = >>=-ok (reject (outside 1 65535 c.max_pending_per_backend) pending) _ h4 in
    let (_, g, h6) =
      >>=-ok (reject (outside 1 1000000 c.max_tcp_connections) tcp_connections) _ h5 in
    record {
      query_timeout = outside-InRange _ _ _ (omega arith) (omega arith) (reject-ok _ _ a);
      tls_idle_timeout = outside-InRange _ _ _ (omega arith) (omega arith) (reject-ok _ _ b);
      packet_size = outside-InRange _ _ _ (omega arith) (omega arith) (reject-ok _ _ d);
      tcp_message_size = outside-InRange _ _ _ (omega arith) (omega arith) (reject-ok _ _ e);
      pending = outside-InRange _ _ _ (omega arith) (omega arith) (reject-ok _ _ f);
      tcp_connections = outside-InRange _ _ _ (omega arith) (omega arith) (reject-ok _ _ g);
      tls_connections = outside-InRange _ _ _ (omega arith) (omega arith) (reject-ok _ _ h6);
    }

pub record Accepted (u : Unicode) (pf : Platform) (c : Settings) : Type 0 where
  pub numbers : NumbersOk c
  pub action : (c.unmatched_action ≡ codes "drop") ⊎ (c.unmatched_action ≡ codes "refused")
  pub limits : validate_limits pf.is_cidr c.limits ≡ none
  pub admin : (a : SockAddr) × (c.admin_listen ≡ pf.text a) × (is_local a.ip ≡ true)
  pub domains : Unique (all_domains c.routes)
  pub routes : All (RouteOk u pf c.allow_remote_backends) c.routes
  pub loops : validate_no_self_routing pf c ≡ ok tt

check_addresses-admin :
    (pf : Platform) (c : Settings) (s : Bytes)
    → check_addresses pf c ≡ ok s
    → (a : SockAddr) × (s ≡ pf.text a) × (is_local a.ip ≡ true)
unfolding check_addresses
check_addresses-admin pf c s h =
    let (_, _, h1) =
      >>=-ok (reject (is_none (pf.resolve_udp c.listen_udp)) invalid_listen_udp) _ h in
    let (_, _, h2) =
      >>=-ok
        (reject (not (is_empty c.listen_tcp) && is_none (pf.resolve_tcp c.listen_tcp))
          invalid_listen_tcp)
        _ h1 in
    let (a, _, h3) = >>=-ok (or_err (pf.resolve_tcp c.admin_listen) invalid_admin_listen) _ h2 in
    let (_, e, h4) = >>=-ok (reject (not (is_local a.ip)) admin_not_loopback) _ h3 in
    (a, sym (ok-inj h4), ground (arith, reject-ok (not (is_local a.ip)) admin_not_loopback e))

either_text : (s a b : Bytes) → not (bytes_eq s a || bytes_eq s b) ≡ false → (s ≡ a) ⊎ (s ≡ b)
either_text s a b h = elim (Bool-cases (bytes_eq s a)) [
  | inl t ↦ inl ((bytes_eq_iff s a).0 t)
  | inr f ↦ inr ((bytes_eq_iff s b).0 (ground (arith, h, f)))
]

-- Whatever the platform answers, a configuration that Validate accepts has all its numbers in range, a
-- known action for unmatched names, limits that their own validation accepts and an admin listener on
-- loopback; each of its routes has a name, domains in normal form and backends on loopback unless remote
-- ones are allowed; no domain is assigned twice, in one route or in two; and the check for backends that
-- are the router's own sockets has passed.
pub validate-Accepted :
    (u : Unicode) (pf : Platform) (given c : Settings)
    → validate u pf given ≡ ok c
    → Accepted u pf c
unfolding validate
validate-Accepted u pf given c h =
    let d = apply_config_defaults pf.cpus given in
    let known =
      bytes_eq d.unmatched_action (codes "drop") || bytes_eq d.unmatched_action (codes "refused") in
    let refused_limits = not (is_none (validate_limits pf.is_cidr d.limits)) in
    let (admin, a, h1) = >>=-ok (check_addresses pf d) _ h in
    let (_, b, h2) = >>=-ok (check_numbers d) _ h1 in
    let (_, e, h3) = >>=-ok (reject (not known) unmatched_action) _ h2 in
    let (_, f, h4) = >>=-ok (reject refused_limits limits_refused) _ h3 in
    let (_, g, h5) =
      >>=-ok (reject (length d.routes == 0 && length d.tls_listeners == 0) no_route) _ h4 in
    let (listeners, j, h6) =
      >>=-ok (validate_tls_listeners u pf (record d { admin_listen = admin })) _ h5 in
    let (routes, k, h7) = >>=-ok (validate_routes u pf d.allow_remote_backends [] d.routes) _ h6 in
    let valid : Settings = record d {
      admin_listen = admin;
      tls_listeners = listeners;
      routes = routes;
    } in
    let (_, l, h8) = >>=-ok (validate_no_self_routing pf valid) _ h7 in
    let (end, added, fine) =
      validate_routes-Added u pf d.allow_remote_backends d.routes [] routes k in
    let n = check_numbers-NumbersOk d tt b in
    let accepted : Accepted u pf valid = record {
      numbers = record {
        query_timeout = n.query_timeout;
        tls_idle_timeout = n.tls_idle_timeout;
        packet_size = n.packet_size;
        tcp_message_size = n.tcp_message_size;
        pending = n.pending;
        tcp_connections = n.tcp_connections;
        tls_connections = n.tls_connections;
      };
      action = either_text d.unmatched_action (codes "drop") (codes "refused") (reject-ok _ _ e);
      limits =
          is_none-eq (validate_limits pf.is_cidr d.limits)
            (reject-ok refused_limits limits_refused f);
      admin = check_addresses-admin pf d admin a;
      domains = added.unique;
      routes = fine;
      loops = l;
    } in
    subst (Accepted u pf) (ok-inj h8) accepted
