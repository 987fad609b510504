-- ===== src/Router/Table.antt =====
-- internal/router/table.go: the routes of a server, tried from the longest suffix to the shortest.
pub mod Longest
pub mod Determined
use cotten_router.Prelude.{
  ℕ, zero, suc, ◌+◌, ◌-◌, ◌*◌, ◌/◌, ◌%◌, ◌^◌, ◌≤◌, ◌<◌, ◌≡◌, refl, sym, ap, subst, ◌∙◌, ◌≢◌, ◌↔◌,
  ◌⊎◌, inl, inr, Bool, true, false, not, ◌&&◌, ◌||◌, Option, none, some, List, [], ◌∷◌, ◌++◌, map,
  append_assoc, append-nil, arith, ltb, leb, ltb→lt, lt→ltb, leb→le, le→leb, ==_iff, ◌==◌,
  if◌then◌else◌, Bool-cases, Option-cases, Eq, Bytes, codes, bytes_eq, bytes_eq_iff, length,
  get_elem?, set, take, drop, all, All, length-append, length-take, length-drop, length-set,
  take-append-drop, take-length-append, drop-length-append, drop-drop, Result, ok, err, panic,
  no_fuel, ◌>>=◌, ◌>>◌, reject, or_err, >>=-ok, reject-ok, ok-inj, or_err-ok, byte_at, slice,
  u16_at, byte_at-drop, u16_at-drop, slice-drop, bit, high_byte, low_byte, put_u16, clear_bit,
  set_bit, clear_low, get_or, Assoc, lookup, insert, erase, lookup-insert, lookup-erase,
  length-erase-le, length-erase-lt, length-insert_new, length-insert_old, In, In-append_left,
  In-append_right, All-In, drop-get_or, get_or-length-append, lookup-insert_self, length-insert-le,
  length-erase-lt_of_In, Distinct, insert-Distinct, erase-Distinct, In-lookup, lookup-In, beq-ne,
  lookup-insert_ne, lookup-erase_ne, lookup-erase_self, Bytes_eq, byte_at-ok, u16_at-ok, slice-ok,
  if_cases, if-map, if-congr, nat_eq, count, count-append, erase_absent, count-erase,
  count-insert_new, insert-All, erase-All, lookup-All, All-imp, lookup_bound, AllValues,
  lookup-AllValues, insert-AllValues, erase-AllValues,
}
use cotten_router.Config.Types.{Route, VerifyConfig}
use cotten_router.Router.Choice.{sort_entries, first_match}
use cotten_router.Dns.Text.{Unicode, to_lower, trim_suffix, has_suffix}

pub record RouteEntry : Type 0 where
  pub domain : Bytes
  pub backend : Bytes
  pub tcp_backend : Bytes
  pub name : Bytes
  pub verify_key : Bytes
  pub verify_mtu : ℕ

abbrev pub verify_mtu : Route → ℕ
verify_mtu r = elim r.verify [ none ↦ 0 | some v ↦ v.mtu ]

abbrev pub entry : Route → Bytes → RouteEntry
entry r domain = record {
  domain = domain;
  backend = r.backend;
  tcp_backend = r.tcp_backend;
  name = r.name;
  verify_key = r.verify_key;
  verify_mtu = verify_mtu r;
}

-- The two nested loops that collect the entries.
unfoldable pub entries : List Route → List RouteEntry
entries [] = []
entries (r ∷ rs) = map (entry r) r.domains ++ entries rs

unfoldable pub new_route_table : List Route → List RouteEntry
new_route_table routes = sort_entries (λ (e : RouteEntry). e.domain) (entries routes)

unfoldable pub match_route : Unicode → Bytes → List RouteEntry → Option RouteEntry
match_route u qname table =
    first_match (λ (e : RouteEntry). e.domain) (to_lower u (trim_suffix qname (b'.' ∷ []))) table
