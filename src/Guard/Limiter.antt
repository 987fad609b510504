-- ===== src/Guard/Limiter.antt =====
-- The type `Limiter` of internal/guard/limiter.go and its methods. A method runs under the mutex, so
-- it is one function from the limiter to the limiter; `now` is the time that it has read. Where the
-- source changes a source through the pointer that sourceFor gave, the entry is written back.
use cotten_router.Prelude.{
  ℕ, ◌+◌, ◌-◌, ◌*◌, Bool, true, false, not, ◌&&◌, ◌||◌, Option, none, some, List, [], ◌∷◌, ltb, leb,
  ◌==◌, if◌then◌else◌, Bytes, length, Assoc, lookup, insert, erase,
}
use cotten_router.Config.Limits.{Limits}
use cotten_router.Guard.Bucket.{Bucket, unit, full_bucket}
use cotten_router.Guard.Address.{Addr, is_valid, Prefix, contains, Addr_eq}
use cotten_router.Guard.Class.{PerClass, every}

-- The type `source`
pub record Source : Type 0 where
  pub queries : Bucket
  pub tls_handshakes : Bucket
  pub ingress : Bucket
  pub tcp_connections : ℕ
  pub tls_connections : PerClass ℕ
  pub last_seen : ℕ

pub record TrafficBuckets : Type 0 where
  pub responses : Bucket
  pub ingress : Bucket

pub record Limiter : Type 0 where
  pub limits : Limits ℕ
  pub global : Bucket
  pub tls_handshake_global : Bucket
  pub aggregate_response : Bucket
  pub aggregate_ingress : Bucket
  pub traffic : PerClass (Option TrafficBuckets)
  pub sources : Assoc Addr Source
  pub trusted : List Prefix
  pub last_recycle : Option ℕ

abbrev or_default : ℕ → ℕ → ℕ
or_default value default = if value == 0 then default else value

-- The aggregate limits that New puts in where they are 0.
unfoldable pub with_aggregates : Limits ℕ → Limits ℕ
with_aggregates l = record l {
  aggregate_response_bytes_per_second =
      or_default l.aggregate_response_bytes_per_second (6 * l.response_bytes_per_second);
  aggregate_response_burst_bytes =
      or_default l.aggregate_response_burst_bytes (6 * l.response_burst_bytes);
  aggregate_ingress_bytes_per_second =
      or_default l.aggregate_ingress_bytes_per_second (6 * l.ingress_bytes_per_second);
  aggregate_ingress_burst_bytes =
      or_default l.aggregate_ingress_burst_bytes (6 * l.ingress_burst_bytes);
}

-- The prefixes that parse; the others are passed over. `parse_prefix` is netip.ParsePrefix.
unfoldable pub parsed : (Bytes → Option Prefix) → List Bytes → List Prefix
parsed parse_prefix [] = []
parsed parse_prefix (s ∷ ss) =
    let rest = parsed parse_prefix ss in elim (parse_prefix s) [ none ↦ rest | some p ↦ p ∷ rest ]

unfoldable pub new : (Bytes → Option Prefix) → Limits ℕ → ℕ → Limiter
unfolding with_aggregates parsed
new parse_prefix given now =
    let l = with_aggregates given in
    record {
      limits = l;
      global = full_bucket l.global_query_burst now;
      tls_handshake_global = full_bucket l.global_query_burst now;
      aggregate_response = full_bucket l.aggregate_response_burst_bytes now;
      aggregate_ingress = full_bucket l.aggregate_ingress_burst_bytes now;
      traffic = every none;
      sources = [];
      trusted = parsed parse_prefix l.trusted_resolver_cidrs;
      last_recycle = none;
    }

unfoldable pub is_trusted : List Prefix → Addr → Bool
is_trusted [] address = false
is_trusted (p ∷ ps) address = contains p address || is_trusted ps address

-- tlsConnectionCount
unfoldable pub tls_connection_count : Source → ℕ
tls_connection_count s =
    c.at_dns + c.at_doh + c.at_dot + c.at_naiveproxy + c.at_stuntls + c.at_handshake
    + c.at_tls_other
  where
    c : PerClass ℕ
    c = s.tls_connections

-- A source with no connection.
unfoldable pub is_idle : Source → Bool
unfolding tls_connection_count
is_idle s = s.tcp_connections == 0 && tls_connection_count s == 0

-- `oldest == nil || state.lastSeen.Before(oldest.lastSeen)`
abbrev pub seen_before : Source → Option (Addr × Source) → Bool
seen_before s none = true
seen_before s (some (_, oldest)) = ltb s.last_seen oldest.last_seen

-- The scan for the idle source that was seen longest ago; `best` is `oldestAddress, oldest`.
unfoldable pub oldest_idle : Assoc Addr Source → Option (Addr × Source) → Option (Addr × Source)
oldest_idle [] best = best
oldest_idle ((a, s) ∷ m) best =
    oldest_idle m (if is_idle s && seen_before s best then some (a, s) else best)

abbrev pub second : ℕ
second = unit

abbrev pub minute : ℕ
minute = 60 * unit

abbrev pub fresh_source : Limits ℕ → ℕ → Source
fresh_source l now = record {
  queries = full_bucket l.per_ip_query_burst now;
  tls_handshakes = full_bucket l.per_ip_query_burst now;
  ingress = full_bucket l.per_ip_ingress_burst_bytes now;
  tcp_connections = 0;
  tls_connections = every 0;
  last_seen = now;
}

-- The end of sourceFor: a new source is made and entered.
abbrev pub admit : Limiter → Addr → ℕ → Limiter × Option Source
admit l address now = (
  record l { sources = insert address (fresh_source l.limits now) l.sources },
  some (fresh_source l.limits now),
)

-- `!l.lastRecycle.IsZero() && now.Sub(l.lastRecycle) < time.Second`
abbrev pub looked_within_second : Option ℕ → ℕ → Bool
looked_within_second none now = false
looked_within_second (some last) now = ltb (now - last) second

-- The map is full: make room by dropping a source that has been idle for a minute, but look for one
-- once in a second at most.
unfoldable pub recycle : Limiter → Addr → ℕ → Limiter × Option Source
unfolding oldest_idle
recycle l address now =
    let looked = record l { last_recycle = some now } in
    if looked_within_second l.last_recycle now
    then (l, none)
    else elim (oldest_idle l.sources none) [
      | none ↦ (looked, none)
      | some (candidate, s) ↦
          if ltb (now - s.last_seen) minute
          then (looked, none)
          else admit (record looked { sources = erase candidate l.sources }) address now
    ]

-- sourceFor
unfoldable pub source_for : Limiter → Addr → ℕ → Limiter × Option Source
unfolding recycle
source_for l address now =
    if not (is_valid address) then (l, none) else elim (lookup address l.sources) [
      | some s ↦ (l, some s)
      | none ↦
          if leb l.limits.max_tracked_ips (length l.sources)
          then recycle l address now
          else admit l address now
    ]
