-- ===== src/Config/Types.antt =====
-- The types Config to TLSRoute, Route and VerifyConfig of internal/config/config.go. An int is kept as
-- its 64 bits in two's complement; a nil pointer is `none`.
use cotten_router.Prelude.{ℕ, Bool, Option, List, Bytes, nat_eq}
use cotten_router.Config.Limits.{Limits}

pub record VerifyConfig : Type 0 where
  pub key : Bytes
  pub cert_file : Bytes
  pub mtu : ℕ

pub record Route : Type 0 where
  pub name : Bytes
  pub domains : List Bytes
  pub backend : Bytes
  pub tcp_backend : Bytes
  pub verify : Option VerifyConfig
  pub verify_key : Bytes

pub record TlsRoute : Type 0 where
  pub name : Bytes
  pub server_names : List Bytes
  pub backend : Bytes

pub record TlsListener : Type 0 where
  pub name : Bytes
  pub listen : Bytes
  pub default_backend : Bytes
  pub default_route_name : Bytes
  pub routes : List TlsRoute

pub record Settings : Type 0 where
  pub listen_udp : Bytes
  pub listen_tcp : Bytes
  pub admin_listen : Bytes
  pub query_timeout_ms : ℕ
  pub tls_idle_timeout_ms : ℕ
  pub max_packet_size : ℕ
  pub max_tcp_message_size : ℕ
  pub max_pending_per_backend : ℕ
  pub max_tcp_connections : ℕ
  pub max_tls_connections_per_protocol : ℕ
  pub unmatched_action : Bytes
  pub allow_remote_backends : Bool
  pub slipgate_configs : List Bytes
  pub limits : Limits ℕ
  pub tls_listeners : List TlsListener
  pub routes : List Route
