-- ===== src/Tests/Places.antt =====
-- A server with one place for a TCP client, and a client that takes it.
use cotten_router.Prelude.{
  ◌≡◌, refl, true, false, some, [], bytes_eq, lookup, insert, Bytes_eq, nat_eq,
}
use cotten_router.Guard.Limiter.{Limiter, new}
use cotten_router.Router.Pools.{new_pools, acquire_tcp_client}
use cotten_router.Router.Pools.Leases.{
  State, Reachable, started, stepped, accept_tcp, Balanced, moved, tcp_pool,
}
use cotten_router.Router.Pools.Served.{Reachable-Balanced}
use cotten_router.Router.Pools.Returned.{Returns, Reachable-Returns}
use cotten_router.Guard.Address.{unmap}
use cotten_router.Guard.Limiter.{source_for}
use cotten_router.Guard.Connections.{acquire_tcp, tcp_from}
use cotten_router.Router.Tls.{tls_capacity_class}
use cotten_router.Router.Pools.{ensure_all, ensure_tls_capacity, put_token, track_connection}
use cotten_router.Tests.Sources.{small, no_prefix, client}

abbrev guard : Limiter
guard = new no_prefix small 0

abbrev first : State
first = record { pools = new_pools guard []; leases = []; swept = false }

abbrev second : State
second =
    moved first 7 (some (some tcp_pool)) (acquire_tcp_client 1 (new_pools guard []) 7 client 0 0).0

accepted :
    acquire_tcp_client 1 (new_pools guard []) 7 client 0 0
    ≡ ((acquire_tcp_client 1 (new_pools guard []) 7 client 0 0).0, true)
unfolding acquire_tcp_client new_pools acquire_tcp source_for unmap lookup ensure_all
    ensure_tls_capacity insert bytes_eq tls_capacity_class new tcp_from put_token track_connection
accepted = refl

second_reached : Reachable 1 1 guard [] second
unfolding lookup
second_reached =
    stepped first second started (accept_tcp first 7 client 0 0 second.pools true refl accepted)

Reachable-Balanced_example : Balanced 1 1 second
Reachable-Balanced_example = Reachable-Balanced 1 1 guard [] second second_reached

Reachable-Returns_example : Returns second 7 client 5
Reachable-Returns_example = Reachable-Returns 1 1 guard [] second 7 client 5 second_reached
