-- ===== src/Router/Tls.antt =====
-- The routing of TLS streams in internal/router/tlsrouter.go: makeTLSRouteTable, the choice of a
-- backend in handleTLSClient and classifyTLSProtocol; and tlsCapacityClass of internal/router/server.go.
pub mod Chosen
use cotten_router.Prelude.{
  ℕ, zero, suc, ◌+◌, ◌-◌, ◌*◌, ◌/◌, ◌%◌, ◌^◌, ◌≤◌, ◌<◌, ◌≡◌, refl, sym, ap, subst, ◌∙◌, ◌≢◌, ◌↔◌,
  ◌⊎◌, inl, inr, Bool, true, false, not, ◌&&◌, ◌||◌, Option, none, some, List, [], ◌∷◌, ◌++◌, map,
  append_assoc, append-nil, arith, ltb, leb, ltb→lt, lt→ltb, leb→le, le→leb, ==_iff, ◌==◌,
  if◌then◌else◌, Bool-cases, Option-cases, Eq, Bytes, codes, bytes_eq, bytes_eq_iff, length,
  get_elem?, set, take, drop, all, All, length-append, length-take, length-drop, length-set,
  take-append-drop, take-length-append, drop-length-append, drop-drop, Result, ok, err, panic,
  no_fuel, ◌>>=◌, ◌>>◌, reject, or_err, >>=-ok, reject-ok, ok-inj, or_err-ok, byte_at, slice,
  u16_at, byte_at-drop, u16_at-drop, slice-drop, bit, high_byte, low_byte, put_u16, clear_bit,
  set_bit, clear_low, get_or, Assoc, lookup, insert, erase, lookup-insert, lookup-erase,
  length-erase-le, length-erase-lt, length-insert_new, length-insert_old, In, In-append_left,
  In-append_right, All-In, drop-get_or, get_or-length-append, lookup-insert_self, length-insert-le,
  length-erase-lt_of_In, Distinct, insert-Distinct, erase-Distinct, In-lookup, lookup-In, beq-ne,
  lookup-insert_ne, lookup-erase_ne, lookup-erase_self, Bytes_eq, byte_at-ok, u16_at-ok, slice-ok,
  if_cases, if-map, if-congr, nat_eq, count, count-append, erase_absent, count-erase,
  count-insert_new, insert-All, erase-All, lookup-All, All-imp, lookup_bound, AllValues,
  lookup-AllValues, insert-AllValues, erase-AllValues,
}
use cotten_router.Dns.Text.{Unicode, to_lower}
use cotten_router.Config.Types.{TlsRoute}
use cotten_router.Router.Choice.{sort_entries, first_match}
use cotten_router.Router.Hello.{no_server_name}
use cotten_router.Router.Greeting.{GreetingError, not_tls, bad_hello}

pub record TlsRouteEntry : Type 0 where
  pub server_name : Bytes
  pub backend : Bytes
  pub name : Bytes

abbrev pub tls_entry : TlsRoute → Bytes → TlsRouteEntry
tls_entry r server_name = record { server_name = server_name; backend = r.backend; name = r.name }

-- The two nested loops that collect the entries.
unfoldable pub tls_entries : List TlsRoute → List TlsRouteEntry
tls_entries [] = []
tls_entries (r ∷ rs) = map (tls_entry r) r.server_names ++ tls_entries rs

unfoldable pub make_tls_route_table : List TlsRoute → List TlsRouteEntry
make_tls_route_table routes =
    sort_entries (λ (e : TlsRouteEntry). e.server_name) (tls_entries routes)

-- `err != nil && !((errNoServerName || errNotTLS) && defaultBackend != "")`: whether handleTLSClient
-- gives up, and the server name where it does not.
unfoldable pub usable_name : Bytes → Result GreetingError Bytes → Option Bytes
usable_name default_backend (ok name) = some name
usable_name default_backend (err not_tls) = if length default_backend == 0 then none else some []
usable_name default_backend (err (bad_hello no_server_name)) =
    if length default_backend == 0 then none else some []
usable_name default_backend _ = none

-- The backend's address and the route's name; the address is empty where there is none.
abbrev pub backend_of : Bytes × Bytes → Option TlsRouteEntry → Bytes × Bytes
backend_of default none = default
backend_of default (some e) = (e.backend, e.name)

unfoldable pub choose_backend : List TlsRouteEntry → Bytes → Bytes × Bytes → Bytes × Bytes
choose_backend table server_name default =
    backend_of default (first_match (λ (e : TlsRouteEntry). e.server_name) server_name table)

abbrev starts_with : Bytes → Bytes → Bool
starts_with s part = leb (length part) (length s) && bytes_eq (take (length part) s) part

-- strings.Contains
unfoldable pub contains_text : Bytes → Bytes → Bool
contains_text [] part = starts_with [] part
contains_text (b ∷ s) part = let rest = contains_text s part in starts_with (b ∷ s) part || rest

unfoldable pub classify_tls_protocol : Unicode → Bytes → Bytes → Bytes
classify_tls_protocol u listener route =
    let value = to_lower u (listener ++ codes " " ++ route) in
    if contains_text value (codes "doh")
    then codes "doh"
    else if contains_text value (codes "dot")
    then codes "dot"
    else if contains_text value (codes "naive")
    then codes "naiveproxy"
    else if contains_text value (codes "stun")
    then codes "stuntls"
    else codes "tls/" ++ listener

unfoldable pub tls_capacity_class : Bytes → Bytes
tls_capacity_class protocol =
    if bytes_eq protocol (codes "doh")
      || bytes_eq protocol (codes "dot")
      || bytes_eq protocol (codes "naiveproxy")
      || bytes_eq protocol (codes "stuntls")
    then protocol
    else codes "tls/other"
