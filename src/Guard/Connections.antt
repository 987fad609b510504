-- ===== src/Guard/Connections.antt =====
-- The methods AcquireTCP to Prune of internal/guard/limiter.go.
use cotten_router.Prelude.{
  ℕ, ◌+◌, ◌-◌, Bool, true, false, ◌&&◌, none, some, [], ◌∷◌, ltb, leb, if◌then◌else◌, Bytes, Assoc,
  lookup,
}
use cotten_router.Guard.Address.{Addr, unmap, Addr_eq}
use cotten_router.Guard.Class.{Class, at, put, protocol_class}
use cotten_router.Guard.Limiter.{Source, Limiter, is_idle}
use cotten_router.Guard.Admission.{store, with_source}

unfoldable pub tcp_from : Limiter → Addr → Source → ℕ → Limiter × Bool
tcp_from l address s now =
    if leb l.limits.max_tcp_connections_per_ip s.tcp_connections then (l, false) else (
      store l address (record s { tcp_connections = s.tcp_connections + 1; last_seen = now }),
      true,
    )

unfoldable pub acquire_tcp : Limiter → Addr → ℕ → Limiter × Bool
acquire_tcp l given now =
    let address = unmap given in with_source l address now (λ l' s. tcp_from l' address s now)

-- `now` is read under the mutex.
unfoldable pub release_tcp : Limiter → Addr → ℕ → Limiter
release_tcp l given now =
    let address = unmap given in
    elim (lookup address l.sources) [
      | none ↦ l
      | some s ↦ store l address (record s {
        tcp_connections =
            if ltb 0 s.tcp_connections then s.tcp_connections - 1 else s.tcp_connections;
        last_seen = now;
      })
    ]

unfoldable pub tls_from : Limiter → Addr → Source → Class → ℕ → Limiter × Bool
tls_from l address s class now =
    let n = at s.tls_connections class in
    if leb l.limits.max_tls_connections_per_ip n then (l, false) else (
      store l address
          (record s { tls_connections = put s.tls_connections class (n + 1); last_seen = now }),
      true,
    )

unfoldable pub acquire_tls : Limiter → Addr → Bytes → ℕ → Limiter × Bool
acquire_tls l given protocol now =
    let address = unmap given in
    let class = protocol_class protocol in
    with_source l address now (λ l' s. tls_from l' address s class now)

unfoldable pub release_tls : Limiter → Addr → Bytes → ℕ → Limiter
release_tls l given protocol now =
    let address = unmap given in
    let class = protocol_class protocol in
    elim (lookup address l.sources) [
      | none ↦ l
      | some s ↦
          let n = at s.tls_connections class in
          store l address (record s {
            tls_connections =
                if ltb 0 n then put s.tls_connections class (n - 1) else s.tls_connections;
            last_seen = now;
          })
    ]

-- `state.lastSeen.Before(now - maxIdle)`
abbrev pub is_stale : Source → ℕ → ℕ → Bool
is_stale s now max_idle = is_idle s && ltb (s.last_seen + max_idle) now

-- The loop of Prune over the map.
unfoldable pub prune_sources : Assoc Addr Source → ℕ → ℕ → Assoc Addr Source
prune_sources [] now max_idle = []
prune_sources ((a, s) ∷ m) now max_idle =
    let rest = prune_sources m now max_idle in
    if is_stale s now max_idle then rest else (a, s) ∷ rest

unfoldable pub prune : Limiter → ℕ → ℕ → Limiter
prune l now max_idle = record l { sources = prune_sources l.sources now max_idle }
