-- ===== src/Router/Tls/Chosen.antt =====
-- What is chosen for a TLS stream, and the class that counts it.
use cotten_router.Prelude.{
  ◌≡◌, refl, none, some, List, ◌++◌, Bytes, codes, bytes_eq, Bytes_eq, if_cases, nat_eq,
}
use cotten_router.Dns.Text.{Unicode, to_lower}
use cotten_router.Config.Types.{TlsRoute}
use cotten_router.Guard.Class.{protocol_class, class_name}
use cotten_router.Router.Choice.Longest.{Chooses}
use cotten_router.Router.Tls.{
  TlsRouteEntry, contains_text, tls_entries, classify_tls_protocol, tls_capacity_class,
}

-- Where a stream that asks for the server name goes: to the entry with the longest name that it is
-- within, among all names of all routes, and to the default only if it is within none.
pub data Goes (routes : List TlsRoute) (server_name : Bytes) (default : Bytes × Bytes)
    : Bytes × Bytes → Type 0 where
  to_route :
      (e : TlsRouteEntry)
      → Chooses (λ (f : TlsRouteEntry). f.server_name) server_name (tls_entries routes) (some e)
      → Goes routes server_name default (e.backend, e.name)
  to_default :
      Chooses (λ (f : TlsRouteEntry). f.server_name) server_name (tls_entries routes) none
      → Goes routes server_name default default

-- The name of the pool in which the router counts a stream is the name of the class that the limiter
-- counts it in, whatever the listener and the route are called.
pub tls_capacity_class-class_name :
    (u : Unicode) (listener route : Bytes)
    → tls_capacity_class (classify_tls_protocol u listener route)
      ≡ class_name (protocol_class (classify_tls_protocol u listener route))
unfolding protocol_class tls_capacity_class classify_tls_protocol bytes_eq
tls_capacity_class-class_name u listener route =
    let value = to_lower u (listener ++ codes " " ++ route) in
    let P = λ (p : Bytes). tls_capacity_class p ≡ class_name (protocol_class p) in
    if_cases P (contains_text value (codes "doh")) _ _ (λ _. refl)
      (λ _.
        if_cases P (contains_text value (codes "dot")) _ _ (λ _. refl)
          (λ _.
            if_cases P (contains_text value (codes "naive")) _ _ (λ _. refl)
              (λ _. if_cases P (contains_text value (codes "stun")) _ _ (λ _. refl) (λ _. refl))))
