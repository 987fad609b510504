-- ===== src/Router/Pools/Leases.antt =====
-- Which connection holds a place in which pool, and the steps that ServeTCP, ServeTLS, handleTLSClient and
-- Close of internal/router take on the pools.
use cotten_router.Prelude.{
  List, ℕ, ◌≤◌, ◌≡◌, Bool, true, false, Option, none, some, [], Bytes, bytes_eq, All, Assoc, lookup,
  insert, erase, In, Distinct, Bytes_eq, nat_eq, count,
}
use cotten_router.Guard.Address.{Addr}
use cotten_router.Guard.Limiter.{Limiter}
use cotten_router.Router.Tls.{tls_capacity_class}
use cotten_router.Router.Pools.{
  Pools, acquire_tcp_client, release_tcp_client, acquire_tls_handshake, release_tls_handshake_lease,
  release_tls_handshake, acquire_tls_protocol, release_tls_protocol, untrack_connection,
  begin_close, sweep_connections, new_pools,
}

pub data Pool : Type 0 where
  tcp_pool handshake_pool : Pool
  class_pool : Bytes → Pool

abbrev pub pool_eq : Pool → Pool → Bool
pool_eq tcp_pool tcp_pool = true
pool_eq handshake_pool handshake_pool = true
pool_eq (class_pool c) (class_pool d) = bytes_eq c d
pool_eq _ _ = false

-- The places of a pool that are taken; `none` where there is no such pool.
abbrev pub held_of : Pools → Pool → Option ℕ
held_of p tcp_pool = some p.tcp_held
held_of p handshake_pool = some p.handshake_held
held_of p (class_pool c) = lookup c p.tls_held

-- The pool in which a connection that is being served has a place; `none` between two pools.
abbrev pub Lease : Type 0
Lease = Option Pool

-- `swept` says that Close has swept the connections.
pub record State : Type 0 where
  pub pools : Pools
  pub leases : Assoc ℕ Lease
  pub swept : Bool

-- The connection's lease from now on; `none` where it has ended.
abbrev pub put_lease : ℕ → Option Lease → Assoc ℕ Lease → Assoc ℕ Lease
put_lease conn none m = erase conn m
put_lease conn (some l) m = insert conn l (erase conn m)

abbrev pub moved : State → ℕ → Option Lease → Pools → State
moved s conn after p = record s { pools = p; leases = put_lease conn after s.leases }

abbrev pub if_granted : Bool → Lease → Option Lease → Option Lease
if_granted true l refused = some l
if_granted false l refused = refused

abbrev pub class_of : Bytes → Lease
class_of protocol = some (class_pool (tls_capacity_class protocol))

module _ (tcp_size tls_size : ℕ) where
  pub data Step : State → State → Type 0 where
    accept_tcp :
        (s : State) (conn : ℕ) (address : Addr) (now later : ℕ) (p : Pools) (granted : Bool)
        → lookup conn s.leases ≡ none
        → acquire_tcp_client tcp_size s.pools conn address now later ≡ (p, granted)
        → Step s (moved s conn (if_granted granted (some tcp_pool) none) p)
    leave_tcp :
        (s : State) (conn : ℕ) (address : Addr) (now : ℕ) (p : Pools)
        → lookup conn s.leases ≡ some (some tcp_pool)
        → release_tcp_client s.pools conn address now ≡ some p
        → Step s (moved s conn none p)
    accept_tls :
        (s : State) (conn : ℕ) (address : Addr) (now later : ℕ) (p : Pools) (granted : Bool)
        → lookup conn s.leases ≡ none
        → acquire_tls_handshake tls_size s.pools conn address now later ≡ (p, granted)
        → Step s (moved s conn (if_granted granted (some handshake_pool) none) p)
    leave_handshake :
        (s : State) (conn : ℕ) (address : Addr) (now : ℕ) (p : Pools)
        → lookup conn s.leases ≡ some (some handshake_pool)
        → release_tls_handshake s.pools conn address now ≡ some p
        → Step s (moved s conn none p)
    end_handshake :
        (s : State) (conn : ℕ) (address : Addr) (now : ℕ) (p : Pools)
        → lookup conn s.leases ≡ some (some handshake_pool)
        → release_tls_handshake_lease s.pools address now ≡ some p
        → Step s (moved s conn (some none) p)
    enter_protocol :
        (s : State) (conn : ℕ) (address : Addr) (protocol : Bytes) (now later : ℕ) (p : Pools)
        (granted : Bool)
        → lookup conn s.leases ≡ some none
        → acquire_tls_protocol tls_size s.pools address protocol now later ≡ (p, granted)
        → Step s (moved s conn (if_granted granted (class_of protocol) (some none)) p)
    leave_protocol :
        (s : State) (conn : ℕ) (address : Addr) (protocol : Bytes) (now : ℕ) (p : Pools)
        → lookup conn s.leases ≡ some (class_of protocol)
        → release_tls_protocol s.pools conn address protocol now ≡ some p
        → Step s (moved s conn none p)
    leave_refused :
        (s : State) (conn : ℕ)
        → lookup conn s.leases ≡ some none
        → Step s (moved s conn none (untrack_connection s.pools conn))
    closing : (s : State) → Step s (record s { pools = begin_close s.pools })
    sweeping :
        (s : State)
        → s.pools.is_done ≡ true
        → Step s (record s { pools = sweep_connections s.pools; swept = true })
    -- Queries and bytes go through the limiter too.
    limiting :
        (s : State) (g : Limiter) → Step s (record s { pools = record s.pools { guard = g } })

  pub data Reachable (guard : Limiter) (protocols : List Bytes) : State → Type 0 where
    started :
        Reachable guard protocols
          (record { pools = new_pools guard protocols; leases = []; swept = false })
    stepped : (s t : State) → Reachable guard protocols s → Step s t → Reachable guard protocols t

abbrev pub is_in : Pool → ℕ × Lease → Bool
is_in q (conn, none) = false
is_in q (conn, some r) = pool_eq r q

abbrev pub Known : Pools → Lease → Type 0
Known p none = Unit {0}
Known p (some q) = (n : ℕ) × (held_of p q ≡ some n)

module _ (tcp_size tls_size : ℕ) where
  abbrev pub size_of : Pool → ℕ
  size_of tcp_pool = tcp_size
  size_of _ = tls_size

  -- Each pool counts the connections that have a place in it, and has room for them; every connection
  -- that is served is registered; and once Close has swept, each of them has been closed.
  pub record Balanced (s : State) : Type 0 where
    pub pools :
        (q : Pool) (n : ℕ)
        → held_of s.pools q ≡ some n
        → (n ≡ count (is_in q) s.leases) × (n ≤ size_of q)
    pub known : All (λ (e : ℕ × Lease). Known s.pools e.1) s.leases
    pub tracked : All (λ (e : ℕ × Lease). lookup e.0 s.pools.connections ≡ some tt) s.leases
    pub distinct : Distinct s.leases
    pub shut : s.swept ≡ true → s.pools.is_done ≡ true
    pub swept : s.swept ≡ true → All (λ (e : ℕ × Lease). In e.0 s.pools.closed) s.leases
