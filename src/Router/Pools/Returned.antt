-- ===== src/Router/Pools/Returned.antt =====
-- The places in the pools come back.
use cotten_router.Prelude.{
  ℕ, suc, ◌≡◌, refl, ap, ◌∙◌, true, some, List, arith, Bytes, codes, bytes_eq_refl, lookup, insert,
  erase, Bytes_eq, nat_eq, count, lookup-All,
}
use cotten_router.Guard.Address.{Addr}
use cotten_router.Guard.Limiter.{Limiter}
use cotten_router.Guard.Connections.{release_tcp, release_tls}
use cotten_router.Router.Tls.{tls_capacity_class}
use cotten_router.Router.Pools.{
  Pools, take_token, untrack_connection, release_tcp_client, release_tls_handshake_lease,
  release_tls_handshake, release_tls_protocol,
}
use cotten_router.Router.Pools.Leases.{
  Pool, tcp_pool, handshake_pool, class_pool, pool_eq, held_of, Lease, State, class_of, is_in,
  Known, Balanced, Reachable,
}
use cotten_router.Router.Pools.Balance.{weight, count-lease}
use cotten_router.Router.Pools.Releases.{some_inj}
use cotten_router.Router.Pools.Served.{Reachable-Balanced}

pool_refl : (r : Pool) → pool_eq r r ≡ true
pool_refl tcp_pool = refl
pool_refl handshake_pool = refl
pool_refl (class_pool c) = bytes_eq_refl c

-- Where a connection has a place in a pool, giving it back never waits.
pub record Returns (s : State) (conn : ℕ) (address : Addr) (now : ℕ) : Type 0 where
  pub tcp :
      lookup conn s.leases ≡ some (some tcp_pool)
      → (p : Pools) × (release_tcp_client s.pools conn address now ≡ some p)
  pub handshake :
      lookup conn s.leases ≡ some (some handshake_pool)
      → (p : Pools) × (release_tls_handshake_lease s.pools address now ≡ some p)
  pub refused_handshake :
      lookup conn s.leases ≡ some (some handshake_pool)
      → (p : Pools) × (release_tls_handshake s.pools conn address now ≡ some p)
  pub protocol :
      (protocol : Bytes)
      → lookup conn s.leases ≡ some (class_of protocol)
      → (p : Pools) × (release_tls_protocol s.pools conn address protocol now ≡ some p)

module _ (tcp_size tls_size : ℕ) where
  -- The pool in which a connection has a place is not empty.
  occupied :
      (s : State) (conn : ℕ) (r : Pool)
      → Balanced tcp_size tls_size s
      → lookup conn s.leases ≡ some (some r)
      → (n : ℕ) × (held_of s.pools r ≡ some (suc n))
  occupied s conn r v e =
      let (n, h) =
        lookup-All (λ (x : ℕ × Lease). Known s.pools x.1) conn (some r) s.leases v.known e in
      let here : weight r (lookup conn s.leases) ≡ 1 = ap (weight r) e ∙ rw (pool_refl r) refl in
      let base = count-lease tcp_size tls_size r conn s.leases v.distinct in
      let m = count (is_in r) (erase conn s.leases) in
      let size : n ≡ suc m = omega (arith, (v.pools r n h).0, base, here) in (m, h ∙ ap some size)

  tcp_returns :
      (p : Pools) (conn n : ℕ) (address : Addr) (now : ℕ)
      → take_token p.tcp_held ≡ some n
      → (q : Pools) × (release_tcp_client p conn address now ≡ some q)
  unfolding release_tcp_client
  tcp_returns p conn n address now h = (
    record (untrack_connection p conn) { tcp_held = n; guard = release_tcp p.guard address now },
    rw (h, release_tcp_client) refl,
  )

  lease_returns :
      (p : Pools) (n : ℕ) (address : Addr) (now : ℕ)
      → take_token p.handshake_held ≡ some n
      → (q : Pools) × (release_tls_handshake_lease p address now ≡ some q)
  unfolding release_tls_handshake_lease
  lease_returns p n address now h = (
    record p { handshake_held = n; guard = release_tls p.guard address (codes "handshake") now },
    rw (h, release_tls_handshake_lease) refl,
  )

  handshake_returns :
      (p q : Pools) (conn : ℕ) (address : Addr) (now : ℕ)
      → release_tls_handshake_lease p address now ≡ some q
      → (r : Pools) × (release_tls_handshake p conn address now ≡ some r)
  unfolding release_tls_handshake
  handshake_returns p q conn address now h =
      (untrack_connection q conn, rw (h, release_tls_handshake) refl)

  protocol_returns :
      (p : Pools) (conn held n : ℕ) (address : Addr) (protocol : Bytes) (now : ℕ)
      → lookup (tls_capacity_class protocol) p.tls_held ≡ some held
      → take_token held ≡ some n
      → (q : Pools) × (release_tls_protocol p conn address protocol now ≡ some q)
  unfolding release_tls_protocol
  protocol_returns p conn held n address protocol now h k =
      let class = tls_capacity_class protocol in
      (
        record (untrack_connection p conn) {
          tls_held = insert class n p.tls_held;
          guard = release_tls p.guard address class now;
        },
        rw (h, release_tls_protocol, k) refl,
      )

  -- After any steps of a server, a connection that has a place in a pool can give it back at once: the
  -- receive from the channel finds an element, whichever of the four releases it is.
  pub Reachable-Returns :
      (guard : Limiter) (protocols : List Bytes) (s : State) (conn : ℕ) (address : Addr) (now : ℕ)
      → Reachable tcp_size tls_size guard protocols s
      → Returns s conn address now
  unfolding take_token
  Reachable-Returns guard protocols s conn address now reached =
      let v = Reachable-Balanced tcp_size tls_size guard protocols s reached in
      record {
        tcp = λ e.
            let (n, h) = occupied s conn tcp_pool v e in
            tcp_returns s.pools conn n address now (ap take_token (some_inj h));
        handshake = λ e.
            let (n, h) = occupied s conn handshake_pool v e in
            lease_returns s.pools n address now (ap take_token (some_inj h));
        refused_handshake = λ e.
            let (n, h) = occupied s conn handshake_pool v e in
            let (q, k) = lease_returns s.pools n address now (ap take_token (some_inj h)) in
            handshake_returns s.pools q conn address now k;
        protocol = λ protocol e.
            let (n, h) = occupied s conn (class_pool (tls_capacity_class protocol)) v e in
            protocol_returns s.pools conn (suc n) n address protocol now h refl;
      }
