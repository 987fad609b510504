-- ===== src/Config/Limits.antt =====
-- The type Limits of internal/config/config.go. `N` is the type of its numbers: any integers in a
-- file that has been read, and natural numbers once they are validated.
use cotten_router.Prelude.{Bytes, List}

pub record Limits (N : Type 0) : Type 0 where
  pub udp_workers : N
  pub udp_queue : N
  pub global_queries_per_second : N
  pub global_query_burst : N
  pub per_ip_queries_per_second : N
  pub per_ip_query_burst : N
  pub per_ip_ingress_bytes_per_second : N
  pub per_ip_ingress_burst_bytes : N
  pub max_tracked_ips : N
  pub max_tcp_connections_per_ip : N
  pub max_tls_connections_per_ip : N
  pub max_tcp_queries_per_connection : N
  pub max_tcp_inflight_per_connection : N
  pub response_bytes_per_second : N
  pub response_burst_bytes : N
  pub ingress_bytes_per_second : N
  pub ingress_burst_bytes : N
  pub aggregate_response_bytes_per_second : N
  pub aggregate_response_burst_bytes : N
  pub aggregate_ingress_bytes_per_second : N
  pub aggregate_ingress_burst_bytes : N
  pub trusted_resolver_cidrs : List Bytes
