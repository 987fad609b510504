-- ===== src/Guard/Admission.antt =====
-- The methods AllowTLSHandshake to AllowSourceProtocolIngress of internal/guard/limiter.go, with
-- trafficFor and consumeProtocolIngress. A `size` is a byte count, so `size <= 0` is 0.
use cotten_router.Prelude.{
  ℕ, Bool, false, not, Option, none, some, ◌==◌, if◌then◌else◌, Bytes, codes, insert,
}
use cotten_router.Config.Limits.{Limits}
use cotten_router.Guard.Bucket.{consume, full_bucket}
use cotten_router.Guard.Address.{Addr, is_valid, unmap, Addr_eq}
use cotten_router.Guard.Class.{Class, at, put, protocol_class}
use cotten_router.Guard.Limiter.{Source, TrafficBuckets, Limiter, is_trusted, source_for}

-- The buckets at their configured rate and burst.
unfoldable pub take_global : Limiter → ℕ → Limiter × Bool
take_global l now =
    let (b, passed) =
      consume l.global now l.limits.global_queries_per_second l.limits.global_query_burst 1 in
    (record l { global = b }, passed)

unfoldable pub take_tls_global : Limiter → ℕ → Limiter × Bool
take_tls_global l now =
    let (b, passed) =
      consume l.tls_handshake_global now l.limits.global_queries_per_second
        l.limits.global_query_burst 1 in
    (record l { tls_handshake_global = b }, passed)

abbrev pub take_queries : Limits ℕ → Source → ℕ → Source × Bool
take_queries l s now =
    let (b, passed) = consume s.queries now l.per_ip_queries_per_second l.per_ip_query_burst 1 in
    (record s { queries = b }, passed)

abbrev pub take_handshakes : Limits ℕ → Source → ℕ → Source × Bool
take_handshakes l s now =
    let (b, passed) =
      consume s.tls_handshakes now l.per_ip_queries_per_second l.per_ip_query_burst 1 in
    (record s { tls_handshakes = b }, passed)

abbrev pub take_ingress : Limits ℕ → Source → ℕ → ℕ → Source × Bool
take_ingress l s now size =
    let (b, passed) =
      consume s.ingress now l.per_ip_ingress_bytes_per_second l.per_ip_ingress_burst_bytes size in
    (record s { ingress = b }, passed)

-- `state.lastSeen = now`, and what else has changed in the source, is entered in the map.
abbrev pub store : Limiter → Addr → Source → Limiter
store l address s = record l { sources = insert address s l.sources }

abbrev pub seen : Source → ℕ → Source
seen s now = record s { last_seen = now }

abbrev pub or_refuse :
    (Limiter → Source → Limiter × Bool) → Limiter × Option Source → Limiter × Bool
or_refuse f (l, none) = (l, false)
or_refuse f (l, some s) = f l s

-- `state := l.sourceFor(address, now); if state == nil { return false }`, and what follows.
abbrev pub with_source : Limiter → Addr → ℕ → (Limiter → Source → Limiter × Bool) → Limiter × Bool
with_source l address now f = or_refuse f (source_for l address now)

unfoldable pub traffic_for : Limiter → Class → ℕ → TrafficBuckets
traffic_for l class now = elim (at l.traffic class) [
  | some value ↦ value
  | none ↦ record {
    responses = full_bucket l.limits.response_burst_bytes now;
    ingress = full_bucket l.limits.ingress_burst_bytes now;
  }
]

-- A class's buckets, back in the map.
abbrev pub store_traffic : Limiter → Class → TrafficBuckets → Limiter
store_traffic l class t = record l { traffic = put l.traffic class (some t) }

unfoldable pub consume_protocol_ingress : Limiter → Class → ℕ → ℕ → Limiter × Bool
consume_protocol_ingress l class size now =
    let t = traffic_for l class now in
    let (b, passed) =
      consume t.ingress now l.limits.ingress_bytes_per_second l.limits.ingress_burst_bytes size in
    let l' = store_traffic l class (record t { ingress = b }) in
    let (aggregate, all_passed) =
      consume l'.aggregate_ingress now l.limits.aggregate_ingress_bytes_per_second
        l.limits.aggregate_ingress_burst_bytes size in
    if not passed then (l', false) else (record l' { aggregate_ingress = aggregate }, all_passed)

-- The source's own bucket first, then the shared one.
unfoldable pub handshake_from : Limiter → Addr → Source → ℕ → Limiter × Bool
handshake_from l address s now =
    let (s', passed) = take_handshakes l.limits (seen s now) now in
    let l' = store l address s' in if not passed then (l', false) else take_tls_global l' now

unfoldable pub allow_tls_handshake : Limiter → Addr → ℕ → Limiter × Bool
allow_tls_handshake l given now =
    let address = unmap given in
    if not (is_valid address)
    then (l, false)
    else if is_trusted l.trusted address
    then take_tls_global l now
    else with_source l address now (λ l' s. handshake_from l' address s now)

unfoldable pub query_from : Limiter → Addr → Source → ℕ → Limiter × Bool
query_from l address s now =
    let (s', passed) = take_queries l.limits (seen s now) now in
    let l' = store l address s' in if not passed then (l', false) else take_global l' now

unfoldable pub allow_query : Limiter → Addr → ℕ → Limiter × Bool
allow_query l given now =
    let address = unmap given in
    if not (is_valid address)
    then (l, false)
    else if is_trusted l.trusted address
    then take_global l now
    else with_source l address now (λ l' s. query_from l' address s now)

-- The shared buckets of a query and its bytes.
unfoldable pub query_ingress_shared : Limiter → ℕ → ℕ → Limiter × Bool
query_ingress_shared l size now =
    let (l', passed) = take_global l now in
    if not passed
    then (l', false)
    else consume_protocol_ingress l' (protocol_class (codes "dns")) size now

unfoldable pub query_ingress_from : Limiter → Addr → Source → ℕ → ℕ → Limiter × Bool
query_ingress_from l address s size now =
    let (s', passed) = take_queries l.limits (seen s now) now in
    let (s'', passed') = take_ingress l.limits s' now size in
    if not passed
    then (store l address s', false)
    else if not passed'
    then (store l address s'', false)
    else query_ingress_shared (store l address s'') size now

unfoldable pub allow_query_ingress : Limiter → Addr → ℕ → ℕ → Limiter × Bool
allow_query_ingress l given size now =
    let address = unmap given in
    if size == 0
    then (l, false)
    else if not (is_valid address)
    then (l, false)
    else if is_trusted l.trusted address
    then query_ingress_shared l size now
    else with_source l address now (λ l' s. query_ingress_from l' address s size now)

unfoldable pub allow_protocol_response : Limiter → Bytes → ℕ → ℕ → Limiter × Bool
allow_protocol_response l protocol size now =
    let class = protocol_class protocol in
    let t = traffic_for l class now in
    let (b, passed) =
      consume t.responses now l.limits.response_bytes_per_second l.limits.response_burst_bytes
        size in
    let l' = store_traffic l class (record t { responses = b }) in
    let (aggregate, all_passed) =
      consume l'.aggregate_response now l.limits.aggregate_response_bytes_per_second
        l.limits.aggregate_response_burst_bytes size in
    if size == 0
    then (l, false)
    else if not passed
    then (l', false)
    else (record l' { aggregate_response = aggregate }, all_passed)

unfoldable pub allow_response : Limiter → ℕ → ℕ → Limiter × Bool
allow_response l size now = allow_protocol_response l (codes "dns") size now

unfoldable pub allow_protocol_ingress : Limiter → Bytes → ℕ → ℕ → Limiter × Bool
allow_protocol_ingress l protocol size now =
    if size == 0 then (l, false) else consume_protocol_ingress l (protocol_class protocol) size now

unfoldable pub allow_ingress : Limiter → ℕ → ℕ → Limiter × Bool
allow_ingress l size now = allow_protocol_ingress l (codes "dns") size now

unfoldable pub source_ingress_from : Limiter → Addr → Source → Class → ℕ → ℕ → Limiter × Bool
source_ingress_from l address s class size now =
    let (s', passed) = take_ingress l.limits (seen s now) now size in
    let l' = store l address s' in
    if not passed then (l', false) else consume_protocol_ingress l' class size now

unfoldable pub allow_source_protocol_ingress : Limiter → Addr → Bytes → ℕ → ℕ → Limiter × Bool
allow_source_protocol_ingress l given protocol size now =
    let address = unmap given in
    let class = protocol_class protocol in
    if size == 0
    then (l, false)
    else if not (is_valid address)
    then (l, false)
    else if is_trusted l.trusted address
    then consume_protocol_ingress l class size now
    else with_source l address now (λ l' s. source_ingress_from l' address s class size now)
