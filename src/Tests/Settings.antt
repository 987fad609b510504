-- ===== src/Tests/Settings.antt =====
-- The defaults of the limits, where the file gives none, on a machine with 4 processors.
use cotten_router.Prelude.{ℕ, ◌≡◌, refl, true, none, [], nat_eq}
use cotten_router.Config.Limits.{Limits}
use cotten_router.Config.Defaults.{
  apply_defaults, class_defaults, aggregate_defaults, validate_limits,
  with_aggregates-validate_limits,
}
use cotten_router.Guard.Limiter.{with_aggregates}

abbrev unset : Limits ℕ
unset = record {
  udp_workers = 0;
  udp_queue = 0;
  global_queries_per_second = 0;
  global_query_burst = 0;
  per_ip_queries_per_second = 0;
  per_ip_query_burst = 0;
  per_ip_ingress_bytes_per_second = 0;
  per_ip_ingress_burst_bytes = 0;
  max_tracked_ips = 0;
  max_tcp_connections_per_ip = 0;
  max_tls_connections_per_ip = 0;
  max_tcp_queries_per_connection = 0;
  max_tcp_inflight_per_connection = 0;
  response_bytes_per_second = 0;
  response_burst_bytes = 0;
  ingress_bytes_per_second = 0;
  ingress_burst_bytes = 0;
  aggregate_response_bytes_per_second = 0;
  aggregate_response_burst_bytes = 0;
  aggregate_ingress_bytes_per_second = 0;
  aggregate_ingress_burst_bytes = 0;
  trusted_resolver_cidrs = [];
}

abbrev settings : Limits ℕ
settings = apply_defaults 4 unset

defaults_accepted : validate_limits (λ s. true) settings ≡ none
unfolding apply_defaults class_defaults aggregate_defaults validate_limits
defaults_accepted = refl

with_aggregates-validate_limits_example : with_aggregates settings ≡ settings
with_aggregates-validate_limits_example =
    with_aggregates-validate_limits (λ s. true) settings defaults_accepted
