-- ===== src/Config/Defaults.antt =====
-- Limits.applyDefaults and Limits.validate of internal/config/config.go. An int is kept as its 64 bits
-- in two's complement, so that the products wrap as they do there.
use cotten_router.Prelude.{
  ℕ, zero, suc, ◌+◌, ◌*◌, ◌%◌, ◌^◌, ◌≡◌, refl, inl, inr, Bool, true, false, not, ◌&&◌, ◌||◌, Option,
  none, some, List, [], ◌∷◌, arith, ltb, ◌==◌, if◌then◌else◌, Bool-cases, Bytes, drop, all, nat_eq,
}
use cotten_router.Config.Limits.{Limits}
use cotten_router.Guard.Limiter.{with_aggregates}

-- `x < y` on int64
abbrev pub less : ℕ → ℕ → Bool
less x y = ltb ((x + 2 ^ 63) % 2 ^ 64) ((y + 2 ^ 63) % 2 ^ 64)

abbrev pub set_default : ℕ → ℕ → ℕ
set_default value default = if value == 0 then default else value

abbrev pub six_times : ℕ → ℕ
six_times x = 6 * x % 2 ^ 64

-- `cpus` is runtime.NumCPU().
abbrev pub default_workers : ℕ → ℕ
default_workers cpus = let n = cpus * 4 in if ltb n 8 then 8 else if ltb 128 n then 128 else n

-- All but the aggregate limits.
unfoldable pub class_defaults : ℕ → Limits ℕ → Limits ℕ
class_defaults cpus l = record l {
  udp_workers = set_default l.udp_workers (default_workers cpus);
  udp_queue = set_default l.udp_queue 1024;
  global_queries_per_second = set_default l.global_queries_per_second 20000;
  global_query_burst = set_default l.global_query_burst 40000;
  per_ip_queries_per_second = set_default l.per_ip_queries_per_second 2000;
  per_ip_query_burst = set_default l.per_ip_query_burst 4000;
  per_ip_ingress_bytes_per_second = set_default l.per_ip_ingress_bytes_per_second (2 * 1024 * 1024);
  per_ip_ingress_burst_bytes = set_default l.per_ip_ingress_burst_bytes (4 * 1024 * 1024);
  max_tracked_ips = set_default l.max_tracked_ips 16384;
  max_tcp_connections_per_ip = set_default l.max_tcp_connections_per_ip 32;
  max_tls_connections_per_ip = set_default l.max_tls_connections_per_ip 32;
  max_tcp_queries_per_connection = set_default l.max_tcp_queries_per_connection 1024;
  max_tcp_inflight_per_connection = set_default l.max_tcp_inflight_per_connection 8;
  response_bytes_per_second = set_default l.response_bytes_per_second (10 * 1024 * 1024);
  response_burst_bytes = set_default l.response_burst_bytes (4 * 1024 * 1024);
  ingress_bytes_per_second = set_default l.ingress_bytes_per_second (10 * 1024 * 1024);
  ingress_burst_bytes = set_default l.ingress_burst_bytes (4 * 1024 * 1024);
}

unfoldable pub aggregate_defaults : Limits ℕ → Limits ℕ
aggregate_defaults l = record l {
  aggregate_response_bytes_per_second =
      set_default l.aggregate_response_bytes_per_second (six_times l.response_bytes_per_second);
  aggregate_response_burst_bytes =
      set_default l.aggregate_response_burst_bytes (six_times l.response_burst_bytes);
  aggregate_ingress_bytes_per_second =
      set_default l.aggregate_ingress_bytes_per_second (six_times l.ingress_bytes_per_second);
  aggregate_ingress_burst_bytes =
      set_default l.aggregate_ingress_burst_bytes (six_times l.ingress_burst_bytes);
}

-- applyDefaults
unfoldable pub apply_defaults : ℕ → Limits ℕ → Limits ℕ
apply_defaults cpus l = aggregate_defaults (class_defaults cpus l)

pub data LimitsError : Type 0 where
  not_positive aggregate_too_small too_large invalid_cidr : LimitsError

-- The numbers of the map `positive`.
abbrev pub must_be_positive : Limits ℕ → List ℕ
must_be_positive l =
    l.udp_workers ∷ l.udp_queue ∷ l.global_queries_per_second ∷ l.global_query_burst
    ∷ l.per_ip_queries_per_second ∷ l.per_ip_query_burst ∷ l.per_ip_ingress_bytes_per_second
    ∷ l.per_ip_ingress_burst_bytes ∷ l.max_tracked_ips ∷ l.max_tcp_connections_per_ip
    ∷ l.max_tls_connections_per_ip ∷ l.max_tcp_queries_per_connection
    ∷ l.max_tcp_inflight_per_connection ∷ l.response_bytes_per_second ∷ l.response_burst_bytes
    ∷ l.ingress_bytes_per_second ∷ l.ingress_burst_bytes ∷ l.aggregate_response_bytes_per_second
    ∷ l.aggregate_response_burst_bytes ∷ l.aggregate_ingress_bytes_per_second
    ∷ l.aggregate_ingress_burst_bytes ∷ []

abbrev pub aggregates_below : Limits ℕ → Bool
aggregates_below l =
    less l.aggregate_response_bytes_per_second l.response_bytes_per_second
    || less l.aggregate_response_burst_bytes l.response_burst_bytes
    || less l.aggregate_ingress_bytes_per_second l.ingress_bytes_per_second
    || less l.aggregate_ingress_burst_bytes l.ingress_burst_bytes

-- validate: `none` is no error. `is_cidr` says that net.ParseCIDR accepts the text.
unfoldable pub validate_limits : (Bytes → Bool) → Limits ℕ → Option LimitsError
validate_limits is_cidr l =
    if not (all (λ n. not (less n 1)) (must_be_positive l))
    then some not_positive
    else if aggregates_below l
    then some aggregate_too_small
    else if less 4096 l.udp_workers || less 1000000 l.udp_queue || less 1000000 l.max_tracked_ips
    then some too_large
    else if not (all is_cidr l.trusted_resolver_cidrs)
    then some invalid_cidr
    else none

positive-default : (n d : ℕ) → not (less n 1) ≡ true → (if n == 0 then d else n) ≡ n
positive-default n d h = ground (arith, h)

and_right : (a b : Bool) → a && b ≡ true → b ≡ true
and_right true b h = h
and_right false b h = absurd (cc h)

all-drop : (p : ℕ → Bool) (n : ℕ) (xs : List ℕ) → all p xs ≡ true → all p (drop n xs) ≡ true
all-drop p zero xs h = h
all-drop p (suc n) [] h = h
all-drop p (suc n) (x ∷ xs) h = all-drop p n xs (and_right (p x) (all p xs) h)

four_true :
    (a b c d : Bool)
    → a && (b && (c && (d && true))) ≡ true
    → (a ≡ true) × (b ≡ true) × (c ≡ true) × (d ≡ true)
four_true true true true true h = (refl, refl, refl, refl)
four_true false b c d h = absurd (cc h)
four_true true false c d h = absurd (cc h)
four_true true true false d h = absurd (cc h)
four_true true true true false h = absurd (cc h)

-- Limits that the validation accepts are those that the limiter works with: guard.New fills in none of
-- its own aggregate limits.
pub with_aggregates-validate_limits :
    (is_cidr : Bytes → Bool) (l : Limits ℕ)
    → validate_limits is_cidr l ≡ none
    → with_aggregates l ≡ l
unfolding validate_limits with_aggregates
with_aggregates-validate_limits is_cidr l h =
    elim (Bool-cases (all (λ n. not (less n 1)) (must_be_positive l))) [
      | inr bad ↦ absurd (let e : some not_positive ≡ none = rw bad at h in cc)
      | inl good ↦
          let positive = λ (n : ℕ). not (less n 1) in
          let r = l.aggregate_response_bytes_per_second in
          let s = l.aggregate_response_burst_bytes in
          let t = l.aggregate_ingress_bytes_per_second in
          let v = l.aggregate_ingress_burst_bytes in
          let p =
            four_true (positive r) (positive s) (positive t) (positive v)
              (all-drop positive 17 (must_be_positive l) good) in
          λ i. record l {
            aggregate_response_bytes_per_second =
                positive-default r (6 * l.response_bytes_per_second) p.0 i;
            aggregate_response_burst_bytes = positive-default s (6 * l.response_burst_bytes) p.1 i;
            aggregate_ingress_bytes_per_second =
                positive-default t (6 * l.ingress_bytes_per_second) p.2 i;
            aggregate_ingress_burst_bytes = positive-default v (6 * l.ingress_burst_bytes) p.3 i;
          }
    ]
