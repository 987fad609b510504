-- ===== src/Router/Table/Longest.antt =====
-- The table picks the longest configured suffix of a name.
use cotten_router.Prelude.{List, [], ◌∷◌, Bytes, Bytes_eq, nat_eq}
use cotten_router.Config.Types.{Route}
use cotten_router.Dns.Text.{Unicode, to_lower, trim_suffix}
use cotten_router.Router.Choice.Longest.{Chooses, chosen}
use cotten_router.Router.Table.{RouteEntry, entries, new_route_table, match_route}

-- The lookup of a name picks, of all domains of all routes, the longest that the name is within,
-- and `none` only if there is none. The name is compared in lower case with no final dot.
pub match_route-Chooses :
    (u : Unicode) (qname : Bytes) (routes : List Route)
    → Chooses
        (λ (e : RouteEntry). e.domain)
        (to_lower u (trim_suffix qname (b'.' ∷ [])))
        (entries routes)
        (match_route u qname (new_route_table routes))
unfolding match_route new_route_table
match_route-Chooses u qname routes =
    chosen (λ (e : RouteEntry). e.domain) (to_lower u (trim_suffix qname (b'.' ∷ [])))
      (entries routes)
