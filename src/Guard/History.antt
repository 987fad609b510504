-- ===== src/Guard/History.antt =====
-- Histories of calls of the limiter. Each call has read its own time, in any order.
use cotten_router.Prelude.{ℕ, refl, ◌∙◌, Option, none, List, [], ◌∷◌, arith, Bytes, codes}
use cotten_router.Config.Limits.{Limits}
use cotten_router.Guard.Address.{Addr, Prefix}
use cotten_router.Guard.Class.{Class, at, every, dns}
use cotten_router.Guard.Limiter.{Limiter, new, with_aggregates}
use cotten_router.Guard.Admission.{
  allow_tls_handshake, allow_query, allow_query_ingress, allow_protocol_response, allow_response,
  allow_protocol_ingress, allow_ingress, allow_source_protocol_ingress,
}
use cotten_router.Guard.Connections.{acquire_tcp, acquire_tls, release_tcp, release_tls, prune}
use cotten_router.Guard.Invariant.{Inv, TrafficOk}
use cotten_router.Guard.Preserve.{Keeps}
use cotten_router.Guard.Methods.{
  allow_tls_handshake-Keeps, allow_query-Keeps, allow_query_ingress-Keeps,
  allow_protocol_response-Keeps, allow_protocol_ingress-Keeps, allow_source_protocol_ingress-Keeps,
  acquire_tcp-Keeps, acquire_tls-Keeps, release_tcp-Keeps, release_tls-Keeps, prune-Keeps,
}

pub data Call : Type 0 where
  tls_handshake : Addr → Call
  query : Addr → Call
  query_ingress : Addr → ℕ → Call
  response : ℕ → Call
  protocol_response : Bytes → ℕ → Call
  ingress : ℕ → Call
  protocol_ingress : Bytes → ℕ → Call
  source_protocol_ingress : Addr → Bytes → ℕ → Call
  tcp_acquire tcp_release : Addr → Call
  tls_acquire tls_release : Addr → Bytes → Call
  pruning : ℕ → Call

-- The limiter after a call at a time.
pub step : Limiter → ℕ → Call → Limiter
step l now (tls_handshake a) = (allow_tls_handshake l a now).0
step l now (query a) = (allow_query l a now).0
step l now (query_ingress a size) = (allow_query_ingress l a size now).0
step l now (response size) = (allow_response l size now).0
step l now (protocol_response protocol size) = (allow_protocol_response l protocol size now).0
step l now (ingress size) = (allow_ingress l size now).0
step l now (protocol_ingress protocol size) = (allow_protocol_ingress l protocol size now).0
step l now (source_protocol_ingress a protocol size) =
    (allow_source_protocol_ingress l a protocol size now).0
step l now (tcp_acquire a) = (acquire_tcp l a now).0
step l now (tcp_release a) = release_tcp l a now
step l now (tls_acquire a protocol) = (acquire_tls l a protocol now).0
step l now (tls_release a protocol) = release_tls l a protocol now
step l now (pruning max_idle) = prune l now max_idle

pub run : Limiter → List (ℕ × Call) → Limiter
run l [] = l
run l ((now, c) ∷ calls) = run (step l now c) calls

step-Keeps : (l : Limiter) (now : ℕ) (c : Call) → Inv l → Keeps l (step l now c)
unfolding step
step-Keeps l now (tls_handshake a) v = allow_tls_handshake-Keeps l v a now
step-Keeps l now (query a) v = allow_query-Keeps l v a now
step-Keeps l now (query_ingress a size) v = allow_query_ingress-Keeps l v a size now
step-Keeps l now (response size) v =
    unfold allow_response in allow_protocol_response-Keeps l v (codes "dns") size now
step-Keeps l now (protocol_response protocol size) v =
    allow_protocol_response-Keeps l v protocol size now
step-Keeps l now (ingress size) v =
    unfold allow_ingress in allow_protocol_ingress-Keeps l v (codes "dns") size now
step-Keeps l now (protocol_ingress protocol size) v =
    allow_protocol_ingress-Keeps l v protocol size now
step-Keeps l now (source_protocol_ingress a protocol size) v =
    allow_source_protocol_ingress-Keeps l v a protocol size now
step-Keeps l now (tcp_acquire a) v = acquire_tcp-Keeps l v a now
step-Keeps l now (tcp_release a) v = release_tcp-Keeps l v a now
step-Keeps l now (tls_acquire a protocol) v = acquire_tls-Keeps l v a protocol now
step-Keeps l now (tls_release a protocol) v = release_tls-Keeps l v a protocol now
step-Keeps l now (pruning max_idle) v = prune-Keeps l v now max_idle

run-Keeps : (l : Limiter) (calls : List (ℕ × Call)) → Inv l → Keeps l (run l calls)
unfolding run
run-Keeps l [] v = (v, refl)
run-Keeps l ((now, c) ∷ calls) v =
    let one = step-Keeps l now c v in
    let rest = run-Keeps (step l now c) calls one.0 in (rest.0, rest.1 ∙ one.1)

every-TrafficOk : (l : Limits ℕ) (c : Class) → TrafficOk l (at (every none) c)
every-TrafficOk l dns = tt
every-TrafficOk l _ = tt

pub new-Inv :
    (parse_prefix : Bytes → Option Prefix) (limits : Limits ℕ) (now : ℕ)
    → Inv (new parse_prefix limits now)
unfolding new
new-Inv parse_prefix limits now = record {
  global = omega arith;
  tls_handshake_global = omega arith;
  aggregate_response = omega arith;
  aggregate_ingress = omega arith;
  traffic = every-TrafficOk (with_aggregates limits);
  sources = tt;
  tracked = omega arith;
  distinct = tt;
}

-- After any history of calls on a new limiter, no bucket holds more than its burst, no address has
-- more TCP connections, or TLS connections of a class, than the limits allow, no more addresses are
-- tracked than configured, none of them twice, and the limits are those of the start.
pub run-new-Keeps :
    (parse_prefix : Bytes → Option Prefix) (limits : Limits ℕ) (now : ℕ) (calls : List (ℕ × Call))
    → Keeps (new parse_prefix limits now) (run (new parse_prefix limits now) calls)
run-new-Keeps parse_prefix limits now calls =
    run-Keeps (new parse_prefix limits now) calls (new-Inv parse_prefix limits now)
