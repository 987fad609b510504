-- ===== src/Tests/Routes.antt =====
-- The route table, at two routes of which one domain stands below the other.
use cotten_router.Prelude.{
  ◌≡◌, refl, ◌↔◌, true, none, some, List, [], ◌∷◌, Bytes, codes, bytes_eq, nat_eq,
}
use cotten_router.Config.Types.{Route}
use cotten_router.Dns.Text.{Unicode, to_lower, trim_suffix, has_suffix}
use cotten_router.Router.Table.{RouteEntry, entry, entries, new_route_table, match_route}
use cotten_router.Router.Choice.{matches_domain_suffix, first_match, sort_entries, place}
use cotten_router.Router.Choice.Suffix.{IsWithin, matches_iff}
use cotten_router.Router.Choice.Longest.{Chooses}
use cotten_router.Router.Table.Longest.{match_route-Chooses}

abbrev ascii : Unicode
ascii = record { lower = λ s. s; trim = λ s. s }

abbrev route : Bytes → Bytes → Route
route name domain = record {
  name = name;
  domains = domain ∷ [];
  backend = codes "127.0.0.1:5300";
  tcp_backend = [];
  verify = none;
  verify_key = [];
}

abbrev two_routes : List Route
two_routes = route (codes "wide") (codes "b.c") ∷ route (codes "narrow") (codes "a.b.c") ∷ []

narrow-match :
    match_route ascii (codes "X.a.b.c.") (new_route_table two_routes)
    ≡ some (entry (route (codes "narrow") (codes "a.b.c")) (codes "a.b.c"))
unfolding match_route new_route_table entries sort_entries place first_match matches_domain_suffix
    to_lower trim_suffix has_suffix bytes_eq
narrow-match = refl

matches_iff_example :
    (matches_domain_suffix (codes "x.b.c") (codes "b.c") ≡ true)
    ↔ IsWithin (codes "x.b.c") (codes "b.c")
matches_iff_example = matches_iff (codes "x.b.c") (codes "b.c")

match_route-Chooses_example :
    Chooses
      (λ (e : RouteEntry). e.domain)
      (to_lower ascii (trim_suffix (codes "X.a.b.c.") (b'.' ∷ [])))
      (entries two_routes)
      (match_route ascii (codes "X.a.b.c.") (new_route_table two_routes))
match_route-Chooses_example = match_route-Chooses ascii (codes "X.a.b.c.") two_routes
