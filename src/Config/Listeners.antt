-- ===== src/Config/Listeners.antt =====
-- validateTLSListeners and validateTCPBackend of internal/config/config.go.
use cotten_router.Prelude.{
  ℕ, Bool, true, false, not, ◌&&◌, ◌||◌, none, some, List, [], ◌∷◌, ◌++◌, ◌==◌, if◌then◌else◌, Eq,
  Bytes, codes, bytes_eq, length, Result, ok, panic, ◌>>=◌, reject, or_err, Assoc, lookup, insert,
  Bytes_eq, nat_eq,
}
use cotten_router.Dns.Text.{Unicode, trim_space, trim_prefix, normalize_domain}
use cotten_router.Config.Types.{TlsRoute, TlsListener, Settings}
use cotten_router.Config.Platform.{
  Platform, is_local, is_empty, ConfigError, tcp_port_shared, listener_incomplete, invalid_listener,
  duplicate_listener, default_incomplete, listener_without_route, tls_route_incomplete,
  invalid_tcp_backend, tcp_backend_not_loopback, invalid_server_name, duplicate_server_name,
}

-- m[k] on a map of strings: "" for a missing key
abbrev pub text_at : {K : Type 0} ⦃e : Eq K⦄ → K → Assoc K Bytes → Bytes
text_at k m = elim (lookup k m) [ none ↦ [] | some v ↦ v ]

abbrev pub has_text : Bytes → List Bytes → Bool
has_text s [] = false
has_text s (t ∷ ts) = bytes_eq t s || has_text s ts

abbrev pub same : Bool → Bool → Bool
same true b = b
same false b = not b

module _ (u : Unicode) (pf : Platform) where
  unfoldable pub validate_tcp_backend : Bool → Bytes → Result ConfigError Bytes
  validate_tcp_backend allow_remote value = do
    backend ← or_err (pf.resolve_tcp value) invalid_tcp_backend
    _ ← reject (not allow_remote && not (is_local backend.ip)) tcp_backend_not_loopback
    ok (pf.text backend)

  -- The loop over the server names of a route. `seen` is seenNames.
  unfoldable pub validate_server_names :
      Bytes → Assoc Bytes Bytes → List Bytes → Result ConfigError (Assoc Bytes Bytes × List Bytes)
  validate_server_names owner seen [] = ok (seen, [])
  validate_server_names owner seen (name ∷ names) = do
    normalized ←
        or_err (normalize_domain u (trim_prefix (trim_space u name) (codes "*.")))
          invalid_server_name
    _ ← reject (not (is_empty (text_at normalized seen))) duplicate_server_name
    rest ← validate_server_names owner (insert normalized owner seen) names
    ok (rest.0, normalized ∷ rest.1)

  -- The loop over the routes of a listener.
  unfoldable pub validate_tls_routes :
      Bool → Assoc Bytes Bytes → List TlsRoute → Result ConfigError (List TlsRoute)
  validate_tls_routes allow_remote seen [] = ok []
  validate_tls_routes allow_remote seen (r ∷ routes) = do
    let name = trim_space u r.name
    _ ← reject (is_empty name || length r.server_names == 0) tls_route_incomplete
    backend ← validate_tcp_backend allow_remote r.backend
    names ← validate_server_names name seen r.server_names
    rest ← validate_tls_routes allow_remote names.0 routes
    ok (record { name = name; server_names = names.1; backend = backend } ∷ rest)

  abbrev default_of : Bool → Bytes → Result ConfigError Bytes
  default_of allow_remote backend =
      if is_empty backend then ok backend else validate_tcp_backend allow_remote backend

  -- The loop over the listeners. `listeners` holds the keys of seenListeners, `ports` is seenPorts.
  unfoldable pub validate_listeners :
      Bool → List Bytes → Assoc ℕ Bytes → List TlsListener → Result ConfigError (List TlsListener)
  validate_listeners allow_remote listeners ports [] = ok []
  validate_listeners allow_remote listeners ports (l ∷ ls) = do
    let name = trim_space u l.name
    _ ← reject (is_empty name || is_empty l.listen) listener_incomplete
    address ← or_err (pf.resolve_tcp l.listen) invalid_listener
    let listen = pf.text address
    _ ← reject (has_text listen listeners) duplicate_listener
    _ ← reject (not (is_empty (text_at address.port ports))) tcp_port_shared
    let default_name = trim_space u l.default_route_name
    _ ← reject (not (same (is_empty l.default_backend) (is_empty default_name))) default_incomplete
    default_backend ← default_of allow_remote l.default_backend
    _ ← reject (length l.routes == 0 && is_empty default_backend) listener_without_route
    routes ← validate_tls_routes allow_remote [] l.routes
    rest ←
        validate_listeners allow_remote (listen ∷ listeners)
          (insert address.port (codes "TLS listener " ++ name) ports) ls
    ok (
        record {
          name = name;
          listen = listen;
          default_backend = default_backend;
          default_route_name = default_name;
          routes = routes;
        }
        ∷ rest)

  -- The ports of the admin listener and of DNS over TCP, where it is configured. A listen_tcp that
  -- does not resolve is a nil address, and its String is "<nil>"; reading its port panics.
  unfoldable pub first_ports : Settings → Result ConfigError (List Bytes × Assoc ℕ Bytes)
  first_ports c =
      let admin : Assoc ℕ Bytes = elim (pf.resolve_tcp c.admin_listen) [
        | none ↦ []
        | some a ↦ (a.port, codes "admin listener") ∷ []
      ] in
      if is_empty c.listen_tcp then ok ([], admin) else elim (pf.resolve_tcp c.listen_tcp) [
        | none ↦ panic
        | some a ↦ do
          _ ← reject (not (is_empty (text_at a.port admin))) tcp_port_shared
          ok (pf.text a ∷ [], insert a.port (codes "DNS-over-TCP listener") admin)
      ]

  unfoldable pub validate_tls_listeners : Settings → Result ConfigError (List TlsListener)
  validate_tls_listeners c = do
    first ← first_ports c
    validate_listeners c.allow_remote_backends first.0 first.1 c.tls_listeners
