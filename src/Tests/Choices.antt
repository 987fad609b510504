-- ===== src/Tests/Choices.antt =====
-- The one choice of a name in the configuration with one route.
use cotten_router.Prelude.{
  ◌≡◌, refl, subst, some, [], ◌∷◌, Bytes, codes, bytes_eq, Bytes_eq, nat_eq,
}
use cotten_router.Dns.Text.{to_lower, trim_suffix, has_suffix}
use cotten_router.Router.Choice.{place, sort_entries, first_match, matches_domain_suffix}
use cotten_router.Router.Choice.Longest.{Chooses}
use cotten_router.Router.Table.{RouteEntry, entry, entries, new_route_table, match_route}
use cotten_router.Router.Table.Longest.{match_route-Chooses}
use cotten_router.Router.Table.Determined.{match_route-determined}
use cotten_router.Tests.Wire.{ascii}
use cotten_router.Tests.Configs.{platform, given, valid, route, given-valid}

abbrev qname : Bytes
qname = codes "X.t.example"

found :
    match_route ascii qname (new_route_table valid.routes) ≡ some (entry route (codes "t.example"))
unfolding match_route new_route_table entries sort_entries place first_match matches_domain_suffix
    to_lower trim_suffix has_suffix bytes_eq
found = refl

match_route-determined_example :
    match_route ascii qname (new_route_table valid.routes) ≡ some (entry route (codes "t.example"))
match_route-determined_example =
    match_route-determined ascii platform given valid qname (some (entry route (codes "t.example")))
      given-valid
      (subst
        (Chooses (λ (e : RouteEntry). e.domain) (to_lower ascii (trim_suffix qname (b'.' ∷ [])))
          (entries valid.routes))
        found (match_route-Chooses ascii qname valid.routes))
