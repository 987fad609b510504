-- ===== src/Router/Pools/Releases.antt =====
-- What the releases do to the places, and that a release of a place that is held does not wait.
use cotten_router.Prelude.{
  ℕ, zero, suc, ◌≡◌, refl, sym, ap, subst, ◌∙◌, inl, inr, none, some, ◌∷◌, if◌then◌else◌,
  Option-cases, Bytes, codes, lookup, insert, erase, lookup-insert, lookup-erase, In, Bytes_eq,
  nat_eq,
}
use cotten_router.Guard.Address.{Addr}
use cotten_router.Guard.Connections.{release_tcp, release_tls}
use cotten_router.Router.Tls.{tls_capacity_class}
use cotten_router.Router.Pools.{
  Pools, take_token, untrack_connection, release_tcp_client, release_tls_handshake_lease,
  release_tls_handshake, release_tls_protocol,
}
use cotten_router.Router.Pools.Leases.{
  Pool, tcp_pool, handshake_pool, class_pool, pool_eq, held_of, class_of,
}
use cotten_router.Router.Pools.Balance.{Effect, Shifted, Lasting}
use cotten_router.Router.Pools.Effects.{lost}

pub some_inj : {A : Type 0} {x y : A} → some x ≡ some y → x ≡ y
some_inj h = cc

-- What is released is a place of a pool that is not empty.
take_token-suc : (held n : ℕ) → take_token held ≡ some n → held ≡ suc n
unfolding take_token
take_token-suc zero n h = absurd (cc h)
take_token-suc (suc held) n h = ap suc (some_inj h)

module _ (tcp_size tls_size : ℕ) where
  -- A connection gives its place back, and is no longer registered.
  left :
      (p p' : Pools) (conn : ℕ) (r : Pool)
      → Shifted tcp_size tls_size p p' (some (some r)) none × Lasting p p'
      → p'.connections ≡ erase conn p.connections
      → p'.closed ≡ conn ∷ p.closed
      → p'.is_done ≡ p.is_done
      → Effect tcp_size tls_size p p' conn (some (some r)) none
  left p p' conn r places gone closed same = record {
    places = places.0;
    pools_last = places.1;
    others = λ j other h. ap (lookup j) gone ∙ rw (lookup-erase conn j p.connections, other) h;
    own = λ _. tt;
    done_lasts = λ h. same ∙ h;
    closed_lasts = λ j i. subst (In j) (sym closed) (inr i);
    none_admitted = λ _ _. refl;
  }

  pub release_tcp_client-Effect :
      (p p' : Pools) (conn : ℕ) (address : Addr) (now : ℕ)
      → release_tcp_client p conn address now ≡ some p'
      → Effect tcp_size tls_size p p' conn (some (some tcp_pool)) none
  unfolding release_tcp_client untrack_connection
  release_tcp_client-Effect p p' conn address now h = elim (Option-cases (take_token p.tcp_held)) [
    | inl waits ↦ absurd (let bad : none ≡ some p' = rw (waits, release_tcp_client) at h in cc)
    | inr (n, e) ↦
        let q = record p {
          closed = conn ∷ p.closed;
          connections = erase conn p.connections;
          tcp_held = n;
          guard = release_tcp p.guard address now;
        } in
        let is : q ≡ p' = some_inj (rw (e, release_tcp_client) at h) in
        subst (λ x. Effect tcp_size tls_size p x conn (some (some tcp_pool)) none) is
          (left p q conn tcp_pool
            (lost tcp_size tls_size p q tcp_pool n none (λ r. refl)
              (ap some (take_token-suc p.tcp_held n e)) (λ r. only n r))
            refl refl refl)
  ]
    where
      only :
          (n : ℕ) (r : Pool)
          → held_of (record p { tcp_held = n }) r
            ≡ (if pool_eq tcp_pool r then some n else held_of p r)
      only n tcp_pool = refl
      only n _ = refl

  handshake_only :
      (p : Pools) (n : ℕ) (r : Pool)
      → held_of (record p { handshake_held = n }) r
        ≡ (if pool_eq handshake_pool r then some n else held_of p r)
  handshake_only p n handshake_pool = refl
  handshake_only p n _ = refl

  pub release_tls_handshake_lease-Effect :
      (p p' : Pools) (conn : ℕ) (address : Addr) (now : ℕ)
      → release_tls_handshake_lease p address now ≡ some p'
      → Effect tcp_size tls_size p p' conn (some (some handshake_pool)) (some none)
  unfolding release_tls_handshake_lease
  release_tls_handshake_lease-Effect p p' conn address now h =
      elim (Option-cases (take_token p.handshake_held)) [
        | inl waits ↦
            absurd (let bad : none ≡ some p' = rw (waits, release_tls_handshake_lease) at h in cc)
        | inr (n, e) ↦
            let q = record p {
              handshake_held = n;
              guard = release_tls p.guard address (codes "handshake") now;
            } in
            let is : q ≡ p' = some_inj (rw (e, release_tls_handshake_lease) at h) in
            let places =
              lost tcp_size tls_size p q handshake_pool n (some none) (λ r. refl)
                (ap some (take_token-suc p.handshake_held n e)) (λ r. handshake_only p n r) in
            subst (λ x. Effect tcp_size tls_size p x conn (some (some handshake_pool)) (some none))
              is
              (record {
                places = places.0;
                pools_last = places.1;
                others = λ j other k. k;
                own = λ s. (s.0, tt);
                done_lasts = λ k. k;
                closed_lasts = λ j i. i;
                none_admitted = λ k m. absurd (cc m);
              })
      ]

  pub release_tls_handshake-Effect :
      (p p' : Pools) (conn : ℕ) (address : Addr) (now : ℕ)
      → release_tls_handshake p conn address now ≡ some p'
      → Effect tcp_size tls_size p p' conn (some (some handshake_pool)) none
  unfolding release_tls_handshake release_tls_handshake_lease untrack_connection
  release_tls_handshake-Effect p p' conn address now h =
      elim (Option-cases (take_token p.handshake_held)) [
        | inl waits ↦ absurd (
            let bad : none ≡ some p' =
              rw (waits, release_tls_handshake, release_tls_handshake_lease) at h in
            cc)
        | inr (n, e) ↦
            let q = record p {
              closed = conn ∷ p.closed;
              connections = erase conn p.connections;
              handshake_held = n;
              guard = release_tls p.guard address (codes "handshake") now;
            } in
            let is : q ≡ p' =
              some_inj (rw (e, release_tls_handshake, release_tls_handshake_lease) at h) in
            subst (λ x. Effect tcp_size tls_size p x conn (some (some handshake_pool)) none) is
              (left p q conn handshake_pool
                (lost tcp_size tls_size p q handshake_pool n none (λ r. refl)
                  (ap some (take_token-suc p.handshake_held n e)) (λ r. handshake_only p n r))
                refl refl refl)
      ]

  class_only :
      (p : Pools) (n : ℕ) (c : Bytes) (r : Pool)
      → held_of (record p { tls_held = insert c n p.tls_held }) r
        ≡ (if pool_eq (class_pool c) r then some n else held_of p r)
  class_only p n c (class_pool d) = lookup-insert c d n p.tls_held
  class_only p n c tcp_pool = refl
  class_only p n c handshake_pool = refl

  pub release_tls_protocol-Effect :
      (p p' : Pools) (conn : ℕ) (address : Addr) (protocol : Bytes) (now : ℕ)
      → release_tls_protocol p conn address protocol now ≡ some p'
      → Effect tcp_size tls_size p p' conn (some (class_of protocol)) none
  unfolding release_tls_protocol untrack_connection
  release_tls_protocol-Effect p p' conn address protocol now h =
      let c = tls_capacity_class protocol in
      elim (Option-cases (lookup c p.tls_held)) [
        | inl missing ↦
            absurd (let bad : none ≡ some p' = rw (missing, release_tls_protocol) at h in cc)
        | inr (held, known) ↦ elim (Option-cases (take_token held)) [
          | inl waits ↦
              absurd (let bad : none ≡ some p' = rw (known, release_tls_protocol, waits) at h in cc)
          | inr (n, e) ↦
              let q = record p {
                closed = conn ∷ p.closed;
                connections = erase conn p.connections;
                tls_held = insert c n p.tls_held;
                guard = release_tls p.guard address c now;
              } in
              let is : q ≡ p' = some_inj (rw (known, release_tls_protocol, e) at h) in
              subst (λ x. Effect tcp_size tls_size p x conn (some (class_of protocol)) none) is
                (left p q conn (class_pool c)
                  (lost tcp_size tls_size p q (class_pool c) n none (λ r. refl)
                    (known ∙ ap some (take_token-suc held n e)) (λ r. class_only p n c r))
                  refl refl refl)
        ]
      ]
