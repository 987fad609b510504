-- ===== src/Router/Pools/Acquired.antt =====
-- What acquireTCPClient, acquireTLSHandshake and acquireTLSProtocol do to the places, granted or refused.
use cotten_router.Prelude.{
  ℕ, ◌+◌, ◌≡◌, refl, sym, ap, subst, ◌∙◌, ◌⊎◌, inl, inr, Bool, true, false, not, none, some, [],
  ◌∷◌, ltb, if◌then◌else◌, Bool-cases, Option-cases, Bytes, codes, lookup, insert, lookup-insert,
  In, lookup-insert_self, Bytes_eq, if_cases, nat_eq,
}
use cotten_router.Guard.Address.{Addr}
use cotten_router.Guard.Limiter.{Limiter}
use cotten_router.Guard.Connections.{acquire_tcp, release_tcp, acquire_tls, release_tls}
use cotten_router.Router.Tls.{tls_capacity_class}
use cotten_router.Router.Pools.{
  or_give_back, Pools, put_token, track_connection, acquire_tcp_client, acquire_tls_handshake,
  acquire_tls_protocol,
}
use cotten_router.Router.Pools.Leases.{
  Pool, tcp_pool, handshake_pool, class_pool, pool_eq, held_of, if_granted, class_of, Known,
}
use cotten_router.Router.Pools.Balance.{Effect, Shifted, Lasting}
use cotten_router.Router.Pools.Effects.{refusal, gained, others-insert}

put_token-cases :
    (size held : ℕ)
    → (put_token size held ≡ none)
      ⊎ ((ltb held size ≡ true) × (put_token size held ≡ some (held + 1)))
unfolding put_token
put_token-cases size held = elim (Bool-cases (ltb held size)) [
  | inl t ↦ inr (t, rw t refl)
  | inr f ↦ inl (rw f refl)
]

-- The end of an acquisition, once the server closes and before.
tracked_cases :
    (Q : Pools × Bool → Type 0) (back p : Pools) (conn : ℕ)
    → (p.is_done ≡ true → Q (back, false))
    → (p.is_done ≡ false → Q (record p { connections = insert conn tt p.connections }, true))
    → Q (or_give_back back (track_connection p conn))
unfolding track_connection
tracked_cases Q back p conn done going =
    if_cases (λ r. Q (or_give_back back r)) p.is_done _ _ done going

module _ (tcp_size tls_size : ℕ) where
  -- A place taken by a connection that is registered with it.
  entered :
      (p p' : Pools) (conn : ℕ) (r : Pool)
      → Shifted tcp_size tls_size p p' none (some (some r)) × Lasting p p'
      → Known p' (some r)
      → p'.connections ≡ insert conn tt p.connections
      → p'.closed ≡ p.closed
      → p.is_done ≡ false
      → Effect tcp_size tls_size p p' conn none (some (some r))
  entered p p' conn r places known now_in same going = record {
    places = places.0;
    pools_last = places.1;
    others = λ j other h. ap (lookup j) now_in ∙ others-insert tcp_size tls_size p conn j other h;
    own = λ _. (ap (lookup conn) now_in ∙ lookup-insert_self conn tt p.connections, known);
    done_lasts = λ h. absurd (let bad : true ≡ false = sym h ∙ going in cc);
    closed_lasts = λ j i. subst (In j) (sym same) i;
    none_admitted = λ h _. absurd (let bad : true ≡ false = sym h ∙ going in cc);
  }

  pub acquire_tcp_client-Effect :
      (p : Pools) (conn : ℕ) (address : Addr) (now later : ℕ)
      → let r = acquire_tcp_client tcp_size p conn address now later in
        Effect tcp_size tls_size p r.0 conn none (if_granted r.1 (some tcp_pool) none)
  unfolding acquire_tcp_client
  acquire_tcp_client-Effect p conn address now later =
      let P = λ (r : Pools × Bool).
        Effect tcp_size tls_size p r.0 conn none (if_granted r.1 (some tcp_pool) none) in
      let g = (acquire_tcp p.guard address now).0 in
      let p' = record p {
        guard = g;
        tcp_held = p.tcp_held + 1;
        connections = insert conn tt p.connections;
      } in
      if_cases P (not (acquire_tcp p.guard address now).1) _ _
        (λ _. refusal tcp_size tls_size p g [] conn none)
        (λ _. elim (put_token-cases tcp_size p.tcp_held) [
          | inl full ↦
              rw full (refusal tcp_size tls_size p (release_tcp g address later) [] conn none)
          | inr (room, token) ↦ rw token (
              tracked_cases P _ _ conn
                (λ _.
                  (refusal tcp_size tls_size p (release_tcp g address later) (conn ∷ []) conn none))
                (λ going.
                  entered p p' conn tcp_pool
                    (gained tcp_size tls_size p p' tcp_pool p.tcp_held none (λ q. refl) refl
                      (λ q. tcp_only q) room)
                    (p.tcp_held + 1, refl) refl refl going))
        ])
    where
      tcp_only :
          (q : Pool)
          → held_of (record p { tcp_held = p.tcp_held + 1 }) q
            ≡ (if pool_eq tcp_pool q then some (p.tcp_held + 1) else held_of p q)
      tcp_only tcp_pool = refl
      tcp_only _ = refl

  pub acquire_tls_handshake-Effect :
      (p : Pools) (conn : ℕ) (address : Addr) (now later : ℕ)
      → let r = acquire_tls_handshake tls_size p conn address now later in
        Effect tcp_size tls_size p r.0 conn none (if_granted r.1 (some handshake_pool) none)
  unfolding acquire_tls_handshake
  acquire_tls_handshake-Effect p conn address now later =
      let P = λ (r : Pools × Bool).
        Effect tcp_size tls_size p r.0 conn none (if_granted r.1 (some handshake_pool) none) in
      let r = acquire_tls p.guard address (codes "handshake") now in
      let given_back = release_tls r.0 address (codes "handshake") later in
      let p' = record p {
        guard = r.0;
        handshake_held = p.handshake_held + 1;
        connections = insert conn tt p.connections;
      } in
      if_cases P (not r.1) _ _ (λ _. refusal tcp_size tls_size p r.0 [] conn none)
        (λ _. elim (put_token-cases tls_size p.handshake_held) [
          | inl full ↦ rw full (refusal tcp_size tls_size p given_back [] conn none)
          | inr (room, token) ↦ rw token (
              tracked_cases P _ _ conn (λ _. (refusal tcp_size tls_size p given_back [] conn none))
                (λ going.
                  entered p p' conn handshake_pool
                    (gained tcp_size tls_size p p' handshake_pool p.handshake_held none (λ q. refl)
                      refl (λ q. handshake_only q) room)
                    (p.handshake_held + 1, refl) refl refl going))
        ])
    where
      handshake_only :
          (q : Pool)
          → held_of (record p { handshake_held = p.handshake_held + 1 }) q
            ≡ (if pool_eq handshake_pool q then some (p.handshake_held + 1) else held_of p q)
      handshake_only handshake_pool = refl
      handshake_only _ = refl

  pub acquire_tls_protocol-Effect :
      (p : Pools) (conn : ℕ) (address : Addr) (protocol : Bytes) (now later : ℕ)
      → let r = acquire_tls_protocol tls_size p address protocol now later in
        Effect tcp_size tls_size p r.0 conn
          (some none)
          (if_granted r.1 (class_of protocol) (some none))
  unfolding acquire_tls_protocol
  acquire_tls_protocol-Effect p conn address protocol now later =
      let P = λ (r : Pools × Bool).
        Effect tcp_size tls_size p r.0 conn (some none)
          (if_granted r.1 (class_of protocol) (some none)) in
      let class = tls_capacity_class protocol in
      let r = acquire_tls p.guard address class now in
      let given_back = release_tls r.0 address class later in
      if_cases P (not r.1) _ _ (λ _. refusal tcp_size tls_size p r.0 [] conn (some none))
        (λ _. elim (Option-cases (lookup class p.tls_held)) [
          | inl missing ↦ rw missing (refusal tcp_size tls_size p given_back [] conn (some none))
          | inr (held, known) ↦ rw known (elim (put_token-cases tls_size held) [
            | inl full ↦ rw full (refusal tcp_size tls_size p given_back [] conn (some none))
            | inr (room, token) ↦ rw token (class_place r.0 held class known room)
          ])
        ])
    where
      class_only :
          (g : Limiter) (held : ℕ) (c : Bytes) (q : Pool)
          → held_of (record p { guard = g; tls_held = insert c (held + 1) p.tls_held }) q
            ≡ (if pool_eq (class_pool c) q then some (held + 1) else held_of p q)
      class_only g held c (class_pool d) = lookup-insert c d (held + 1) p.tls_held
      class_only g held c tcp_pool = refl
      class_only g held c handshake_pool = refl

      class_place :
          (g : Limiter) (held : ℕ) (c : Bytes)
          → lookup c p.tls_held ≡ some held
          → ltb held tls_size ≡ true
          → Effect tcp_size tls_size p
              (record p { guard = g; tls_held = insert c (held + 1) p.tls_held })
              conn
              (some none)
              (some (some (class_pool c)))
      class_place g held c known room =
          let p' = record p { guard = g; tls_held = insert c (held + 1) p.tls_held } in
          let places =
            gained tcp_size tls_size p p' (class_pool c) held (some none) (λ q. refl) known
              (λ q. class_only g held c q) room in
          record {
            places = places.0;
            pools_last = places.1;
            others = λ j other h. h;
            own = λ s. (s.0, (held + 1, lookup-insert_self c (held + 1) p.tls_held));
            done_lasts = λ h. h;
            closed_lasts = λ j i. i;
            none_admitted = λ h n. absurd (cc n);
          }
