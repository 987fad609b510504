-- ===== src/Router/Pools/Served.antt =====
-- The pools and the registered connections of a server after any steps.
use cotten_router.Prelude.{
  ℕ, ◌≡◌, refl, sym, subst, ◌∙◌, inl, inr, Bool, true, none, some, List, [], ◌∷◌, ◌++◌, arith,
  ==_iff, ◌==◌, Bool-cases, Option-cases, Bytes, all, All, Assoc, lookup, erase, lookup-erase, In,
  In-append_left, Bytes_eq, nat_eq, All-imp, AllValues, lookup-AllValues, insert-AllValues,
}
use cotten_router.Guard.Limiter.{Limiter}
use cotten_router.Router.Tls.{tls_capacity_class}
use cotten_router.Router.Pools.{
  Pools, keys, untrack_connection, begin_close, sweep_connections, ensure_tls_capacity, ensure_all,
  no_pools, tls_classes, new_pools,
}
use cotten_router.Router.Pools.Leases.{
  Pool, tcp_pool, handshake_pool, class_pool, if_granted, held_of, Lease, State, class_of, Known,
  Balanced, Step, accept_tcp, leave_tcp, accept_tls, leave_handshake, end_handshake, enter_protocol,
  leave_protocol, leave_refused, closing, sweeping, limiting, Reachable, started, stepped,
}
use cotten_router.Router.Pools.Balance.{Effect, moved-Balanced}
use cotten_router.Router.Pools.Acquired.{
  acquire_tcp_client-Effect, acquire_tls_handshake-Effect, acquire_tls_protocol-Effect,
}
use cotten_router.Router.Pools.Releases.{
  release_tcp_client-Effect, release_tls_handshake_lease-Effect, release_tls_handshake-Effect,
  release_tls_protocol-Effect,
}

-- No place is taken.
record Vacant (p : Pools) : Type 0 where
  tcp : p.tcp_held ≡ 0
  handshake : p.handshake_held ≡ 0
  classes : AllValues (λ (n : ℕ). n ≡ 0) p.tls_held

ensure_tls_capacity-Vacant :
    (p : Pools) (protocol : Bytes) → Vacant p → Vacant (ensure_tls_capacity p protocol)
unfolding ensure_tls_capacity
ensure_tls_capacity-Vacant p c v = elim (Option-cases (lookup (tls_capacity_class c) p.tls_held)) [
  | inr (n, e) ↦ rw (e, ensure_tls_capacity) v
  | inl e ↦
      rw (e, ensure_tls_capacity)
        (record {
          tcp = v.tcp;
          handshake = v.handshake;
          classes =
              insert-AllValues (λ (n : ℕ). n ≡ 0) (tls_capacity_class c) 0 p.tls_held v.classes
                refl;
        })
]

ensure_all-Vacant :
    (p : Pools) (protocols : List Bytes) → Vacant p → Vacant (ensure_all p protocols)
unfolding ensure_all
ensure_all-Vacant p [] v = v
ensure_all-Vacant p (c ∷ cs) v =
    ensure_all-Vacant (ensure_tls_capacity p c) cs (ensure_tls_capacity-Vacant p c v)

new_pools-Vacant : (guard : Limiter) (protocols : List Bytes) → Vacant (new_pools guard protocols)
unfolding new_pools
new_pools-Vacant guard protocols =
    ensure_all-Vacant (ensure_all (no_pools guard) tls_classes) protocols (
      ensure_all-Vacant (no_pools guard) tls_classes
        (record { tcp = refl; handshake = refl; classes = tt }))

Vacant-held : (p : Pools) (q : Pool) (n : ℕ) → Vacant p → held_of p q ≡ some n → n ≡ 0
Vacant-held p tcp_pool n v h = let e : p.tcp_held ≡ n = cc in sym e ∙ v.tcp
Vacant-held p handshake_pool n v h = let e : p.handshake_held ≡ n = cc in sym e ∙ v.handshake
Vacant-held p (class_pool c) n v h = lookup-AllValues (λ (n : ℕ). n ≡ 0) c n p.tls_held v.classes h

-- Every registered connection is among the keys.
In-keys : (conn : ℕ) (m : Assoc ℕ (Unit {0})) → lookup conn m ≡ some tt → In conn (keys m)
unfolding lookup
In-keys conn [] h = absurd (cc h)
In-keys conn ((j, _) ∷ m) h = elim (Bool-cases (j == conn)) [
  | inl t ↦ inl (sym ((==_iff j conn).0 t))
  | inr f ↦ inr (In-keys conn m (rw f at h))
]

module _ (tcp_size tls_size : ℕ) where
  leave_refused-Effect :
      (p : Pools) (conn : ℕ)
      → Effect tcp_size tls_size p (untrack_connection p conn) conn (some none) none
  unfolding untrack_connection
  leave_refused-Effect p conn = record {
    places = λ q n h. (n, same q ∙ h, refl, λ le. le);
    pools_last = λ q n h. (n, sym (same q) ∙ h);
    others = λ j other h. rw (lookup-erase conn j p.connections, other) h;
    own = λ _. tt;
    done_lasts = λ h. h;
    closed_lasts = λ j i. inr i;
    none_admitted = λ _ _. refl;
  }
    where
      same :
          (q : Pool)
          → held_of p q
            ≡ held_of
                (record p { closed = conn ∷ p.closed; connections = erase conn p.connections })
                q
      same tcp_pool = refl
      same _ = refl

  -- A change of the limiter, of `is_done` and of what is closed.
  aside :
      (s : State) (g : Limiter) (done swept : Bool) (closed : List ℕ)
      → Balanced tcp_size tls_size s
      → (swept ≡ true → done ≡ true)
      → (swept ≡ true → All (λ (e : ℕ × Lease). In e.0 closed) s.leases)
      → Balanced tcp_size tls_size (record s {
        pools = record s.pools { guard = g; is_done = done; closed = closed };
        swept = swept;
      })
  aside s g done swept closed v shut all = record {
    pools = λ q n h. v.pools q n (same q ∙ h);
    known = All-imp s.leases known v.known;
    tracked = v.tracked;
    distinct = v.distinct;
    shut = shut;
    swept = all;
  }
    where
      same :
          (q : Pool)
          → held_of s.pools q
            ≡ held_of (record s.pools { guard = g; is_done = done; closed = closed }) q
      same tcp_pool = refl
      same _ = refl

      known :
          (e : ℕ × Lease)
          → Known s.pools e.1
          → Known (record s.pools { guard = g; is_done = done; closed = closed }) e.1
      known (conn, none) k = tt
      known (conn, some q) k = (k.0, sym (same q) ∙ k.1)

  Step-Balanced :
      (s t : State)
      → Balanced tcp_size tls_size s
      → Step tcp_size tls_size s t
      → Balanced tcp_size tls_size t
  Step-Balanced s t v (accept_tcp _ conn address now later p granted new e) =
      moved-Balanced tcp_size tls_size s conn none (if_granted granted (some tcp_pool) none) p v new
        (subst
          (λ r.
            Effect tcp_size tls_size s.pools r.0 conn none (if_granted r.1 (some tcp_pool) none))
          e (acquire_tcp_client-Effect tcp_size tls_size s.pools conn address now later))
  Step-Balanced s t v (leave_tcp _ conn address now p old e) =
      moved-Balanced tcp_size tls_size s conn (some (some tcp_pool)) none p v old
        (release_tcp_client-Effect tcp_size tls_size s.pools p conn address now e)
  Step-Balanced s t v (accept_tls _ conn address now later p granted new e) =
      moved-Balanced tcp_size tls_size s conn none (if_granted granted (some handshake_pool) none) p
        v new
        (subst
          (λ r.
            Effect tcp_size tls_size s.pools r.0 conn none
              (if_granted r.1 (some handshake_pool) none))
          e (acquire_tls_handshake-Effect tcp_size tls_size s.pools conn address now later))
  Step-Balanced s t v (leave_handshake _ conn address now p old e) =
      moved-Balanced tcp_size tls_size s conn (some (some handshake_pool)) none p v old
        (release_tls_handshake-Effect tcp_size tls_size s.pools p conn address now e)
  Step-Balanced s t v (end_handshake _ conn address now p old e) =
      moved-Balanced tcp_size tls_size s conn (some (some handshake_pool)) (some none) p v old
        (release_tls_handshake_lease-Effect tcp_size tls_size s.pools p conn address now e)
  Step-Balanced s t v (enter_protocol _ conn address protocol now later p granted old e) =
      moved-Balanced tcp_size tls_size s conn (some none)
        (if_granted granted (class_of protocol) (some none)) p v old
        (subst
          (λ r.
            Effect tcp_size tls_size s.pools r.0 conn (some none)
              (if_granted r.1 (class_of protocol) (some none)))
          e (acquire_tls_protocol-Effect tcp_size tls_size s.pools conn address protocol now later))
  Step-Balanced s t v (leave_protocol _ conn address protocol now p old e) =
      moved-Balanced tcp_size tls_size s conn (some (class_of protocol)) none p v old
        (release_tls_protocol-Effect tcp_size tls_size s.pools p conn address protocol now e)
  Step-Balanced s t v (leave_refused _ conn old) =
      moved-Balanced tcp_size tls_size s conn (some none) none (untrack_connection s.pools conn) v
        old (leave_refused-Effect s.pools conn)
  Step-Balanced s t v (closing _) =
      unfold begin_close in aside s s.pools.guard true s.swept s.pools.closed v (λ _. refl) v.swept
  Step-Balanced s t v (sweeping _ done) =
      unfold sweep_connections in
      aside s s.pools.guard s.pools.is_done true (keys s.pools.connections ++ s.pools.closed) v
        (λ _. done)
        (λ _.
          All-imp s.leases
            (λ e k.
              In-append_left e.0 (keys s.pools.connections) s.pools.closed
                (In-keys e.0 s.pools.connections k))
            v.tracked)
  Step-Balanced s t v (limiting _ g) =
      aside s g s.pools.is_done s.swept s.pools.closed v v.shut v.swept

  -- After any steps of a server, in any order, acquisitions and releases taken as one step each: every
  -- pool counts exactly the connections that have a place in it, and no more than its size; every
  -- connection that is served is registered for Close to find; and once Close has swept the connections,
  -- each one that is still served has been closed.
  pub Reachable-Balanced :
      (guard : Limiter) (protocols : List Bytes) (s : State)
      → Reachable tcp_size tls_size guard protocols s
      → Balanced tcp_size tls_size s
  Reachable-Balanced guard protocols s started = record {
    pools = λ q n h.
        let e = Vacant-held (new_pools guard protocols) q n (new_pools-Vacant guard protocols) h in
        (e, omega (arith, e));
    known = tt;
    tracked = tt;
    distinct = tt;
    shut = λ h. absurd (cc h);
    swept = λ _. tt;
  }
  Reachable-Balanced guard protocols t (stepped s _ before step) =
      Step-Balanced s t (Reachable-Balanced guard protocols s before) step
