-- ===== src/Tests/Sources.antt =====
-- The rate limiter, with one client.
use cotten_router.Prelude.{
  ℕ, ◌+◌, ◌-◌, ◌*◌, ◌≤◌, ◌<◌, ◌≡◌, refl, ◌↔◌, ◌⊎◌, false, Option, none, some, List, [], ◌∷◌, arith,
  Bytes, codes, lookup, In, Bytes_eq, nat_eq,
}
use cotten_router.Config.Limits.{Limits}
use cotten_router.Guard.Bucket.{Bucket, unit, consume}
use cotten_router.Guard.Bucket.Rate.{consume_all, consume_all-le}
use cotten_router.Guard.Address.{Addr, v4, Prefix, unmap, Addr_eq}
use cotten_router.Guard.Limiter.{
  with_aggregates, Source, Limiter, new, source_for, fresh_source, is_trusted,
}
use cotten_router.Guard.Admission.{allow_query_ingress}
use cotten_router.Guard.Connections.{prune}
use cotten_router.Guard.Invariant.{fresh_source-SourceOk, Inv}
use cotten_router.Guard.Preserve.{Keeps}
use cotten_router.Guard.History.{
  new-Inv, Call, query, tcp_acquire, tls_acquire, pruning, run, run-new-Keeps,
}
use cotten_router.Guard.Isolation.{OthersUntouched, allow_query_ingress-OthersUntouched}
use cotten_router.Guard.Tracking.{Unconnected, In-prune}
use cotten_router.Guard.Eviction.{Droppable, source_for-Survives}

abbrev pub small : Limits ℕ
small = record {
  udp_workers = 1;
  udp_queue = 1;
  global_queries_per_second = 10;
  global_query_burst = 10;
  per_ip_queries_per_second = 1;
  per_ip_query_burst = 2;
  per_ip_ingress_bytes_per_second = 100;
  per_ip_ingress_burst_bytes = 200;
  max_tracked_ips = 2;
  max_tcp_connections_per_ip = 1;
  max_tls_connections_per_ip = 1;
  max_tcp_queries_per_connection = 1;
  max_tcp_inflight_per_connection = 1;
  response_bytes_per_second = 100;
  response_burst_bytes = 200;
  ingress_bytes_per_second = 100;
  ingress_burst_bytes = 200;
  aggregate_response_bytes_per_second = 0;
  aggregate_response_burst_bytes = 0;
  aggregate_ingress_bytes_per_second = 0;
  aggregate_ingress_burst_bytes = 0;
  trusted_resolver_cidrs = [];
}

abbrev pub no_prefix : Bytes → Option Prefix
no_prefix s = none

abbrev pub client : Addr
client = v4 7

abbrev bucket : Bucket
bucket = record { tokens = 2 * unit; last = 0 }

consume_all-le_example :
    (consume_all 1 2 bucket ((5, 1) ∷ (3, 1) ∷ (9, 1) ∷ [])).1 ≤ 2 * unit + (9 - bucket.last) * 1
consume_all-le_example =
    consume_all-le 1 2 9 bucket ((5, 1) ∷ (3, 1) ∷ (9, 1) ∷ []) (omega arith) (omega arith)
      (omega arith, (omega arith, (omega arith, tt)))

abbrev calls : List (ℕ × Call)
calls =
    (5, query client)
    ∷ (6, tcp_acquire client)
    ∷ (7, tls_acquire client (codes "doh"))
    ∷ (9, pruning 1)
    ∷ []

run-new-Keeps_example : Keeps (new no_prefix small 0) (run (new no_prefix small 0) calls)
run-new-Keeps_example = run-new-Keeps no_prefix small 0 calls

abbrev drained : Source
drained = record (fresh_source small 0) { queries = record { tokens = 0; last = 0 } }

abbrev one_source : Limiter
one_source = record (new no_prefix small 0) { sources = (client, drained) ∷ [] }

In-prune_example : In (client, drained) (prune one_source 9 5).sources ↔ (
    In (client, drained) one_source.sources × ¬ (Unconnected drained × (drained.last_seen + 5 < 9)))
In-prune_example = In-prune one_source 9 5 client drained

allow_query_ingress-OthersUntouched_example :
    ((allow_query_ingress one_source client 50 0).1 ≡ false)
    × OthersUntouched one_source (allow_query_ingress one_source client 50 0).0 (unmap client)
unfolding new source_for lookup is_trusted unmap consume
allow_query_ingress-OthersUntouched_example =
    allow_query_ingress-OthersUntouched one_source one_source client drained 50 0
      (λ e. absurd (omega arith)) refl refl refl

one_source-Inv : Inv one_source
unfolding new with_aggregates
one_source-Inv =
    let base = new-Inv no_prefix small 0 in
    let fresh = fresh_source-SourceOk (new no_prefix small 0).limits 0 in
    record {
      global = base.global;
      tls_handshake_global = base.tls_handshake_global;
      aggregate_response = base.aggregate_response;
      aggregate_ingress = base.aggregate_ingress;
      traffic = base.traffic;
      sources = (
        record {
          queries = omega arith;
          tls_handshakes = fresh.tls_handshakes;
          ingress = fresh.ingress;
          tcp = fresh.tcp;
          tls = fresh.tls;
        },
        tt,
      );
      tracked = omega arith;
      distinct = (unfold lookup in refl, tt);
    }

source_for-Survives_example :
    (lookup client (source_for one_source (v4 8) 5).0.sources ≡ some drained)
    ⊎ Droppable one_source drained 5
unfolding new lookup
source_for-Survives_example =
    source_for-Survives one_source (v4 8) client drained 5 one_source-Inv (λ e. absurd (cc e)) refl
