-- ===== src/Guard/Steps.antt =====
-- What the methods do with the source that they have found, and the loop of Prune: each step keeps
-- the invariant.
use cotten_router.Prelude.{
  ℕ, ◌+◌, ◌-◌, ◌≤◌, ◌≡◌, refl, sym, inl, inr, false, not, none, some, [], ◌∷◌, arith, ltb, leb,
  if◌then◌else◌, Bool-cases, codes, length, all, Assoc, lookup, Distinct, AllValues,
}
use cotten_router.Config.Limits.{Limits}
use cotten_router.Guard.Address.{Addr, Addr_eq}
use cotten_router.Guard.Class.{Class, at, put, protocol_class, Class-cases, at-put_self, at-put_ne}
use cotten_router.Guard.Limiter.{Source, Limiter}
use cotten_router.Guard.Admission.{
  take_global, take_tls_global, take_queries, take_handshakes, take_ingress, store, seen,
  consume_protocol_ingress, handshake_from, query_from, query_ingress_shared, query_ingress_from,
  source_ingress_from,
}
use cotten_router.Guard.Connections.{tcp_from, tls_from, prune_sources, is_stale}
use cotten_router.Guard.Invariant.{Inv, SourceOk}
use cotten_router.Guard.Preserve.{
  Keeps, if-Keeps, Keeps-trans, store-Keeps, take_global-Keeps, take_tls_global-Keeps,
  seen-SourceOk, take_queries-SourceOk, take_handshakes-SourceOk, take_ingress-SourceOk,
  consume_protocol_ingress-Keeps,
}

-- What each method does with the source that it has found.
module _ (m : Limiter) (a : Addr) (s : Source) (now : ℕ) (i : Inv m) (o : SourceOk m.limits s)
    (known : lookup a m.sources ≡ some s) where
  seen_ok : SourceOk m.limits (seen s now)
  seen_ok = seen-SourceOk m.limits s now o

  pub handshake_from-Keeps : Keeps m (handshake_from m a s now).0
  unfolding handshake_from
  handshake_from-Keeps =
      let r = take_handshakes m.limits (seen s now) now in
      let l' = store m a r.0 in
      let stored =
        store-Keeps m a r.0 s i (take_handshakes-SourceOk m.limits (seen s now) now seen_ok)
          known in
      if-Keeps m (not r.1) (l', false) (take_tls_global l' now) stored
        (Keeps-trans m l' (take_tls_global l' now).0 stored (take_tls_global-Keeps l' now))

  pub query_from-Keeps : Keeps m (query_from m a s now).0
  unfolding query_from
  query_from-Keeps =
      let r = take_queries m.limits (seen s now) now in
      let l' = store m a r.0 in
      let stored =
        store-Keeps m a r.0 s i (take_queries-SourceOk m.limits (seen s now) now seen_ok) known in
      if-Keeps m (not r.1) (l', false) (take_global l' now) stored
        (Keeps-trans m l' (take_global l' now).0 stored (take_global-Keeps l' now))

  pub source_ingress_from-Keeps :
      (c : Class) (size : ℕ) → Keeps m (source_ingress_from m a s c size now).0
  unfolding source_ingress_from
  source_ingress_from-Keeps c size =
      let r = take_ingress m.limits (seen s now) now size in
      let l' = store m a r.0 in
      let stored =
        store-Keeps m a r.0 s i (take_ingress-SourceOk m.limits (seen s now) now size seen_ok)
          known in
      if-Keeps m (not r.1) (l', false) (consume_protocol_ingress l' c size now) stored
        (Keeps-trans m l' (consume_protocol_ingress l' c size now).0 stored
          (consume_protocol_ingress-Keeps l' c size now))

room_for_one : (most n : ℕ) → leb most n ≡ false → n + 1 ≤ most
room_for_one most n h = ground arith

put-le :
    (s : Source) (c d : Class) (n most : ℕ)
    → n ≤ most
    → ((e : Class) → at s.tls_connections e ≤ most)
    → at (put s.tls_connections c n) d ≤ most
put-le s c d n most h all = elim (Class-cases c d) [
  | inl same ↦ rw (sym same, at-put_self s.tls_connections c n) h
  | inr other ↦ rw (at-put_ne s.tls_connections c d n other) (all d)
]

pub fewer_tcp-SourceOk :
    (l : Limits ℕ) (s : Source) (now : ℕ)
    → SourceOk l s
    → SourceOk l (record s {
      tcp_connections =
          if ltb 0 s.tcp_connections then s.tcp_connections - 1 else s.tcp_connections;
      last_seen = now;
    })
fewer_tcp-SourceOk l s now o = record {
  queries = o.queries;
  tls_handshakes = o.tls_handshakes;
  ingress = o.ingress;
  tcp = ground (arith, o.tcp);
  tls = o.tls;
}

pub fewer_tls-SourceOk :
    (l : Limits ℕ) (s : Source) (c : Class) (now : ℕ)
    → SourceOk l s
    → SourceOk l (record s {
      tls_connections =
          if ltb 0 (at s.tls_connections c)
          then put s.tls_connections c (at s.tls_connections c - 1)
          else s.tls_connections;
      last_seen = now;
    })
fewer_tls-SourceOk l s c now o = record {
  queries = o.queries;
  tls_handshakes = o.tls_handshakes;
  ingress = o.ingress;
  tcp = o.tcp;
  tls = λ d. elim (Bool-cases (ltb 0 (at s.tls_connections c))) [
    | inl some_left ↦ rw some_left (put-le s c d _ _ (omega (arith, o.tls c)) o.tls)
    | inr nothing ↦ rw nothing (o.tls d)
  ];
}

pub tcp_from-Keeps :
    (m : Limiter) (a : Addr) (s : Source) (now : ℕ)
    → Inv m
    → SourceOk m.limits s
    → lookup a m.sources ≡ some s
    → Keeps m (tcp_from m a s now).0
unfolding tcp_from
tcp_from-Keeps m a s now i o known =
    elim (Bool-cases (leb m.limits.max_tcp_connections_per_ip s.tcp_connections)) [
      | inl full ↦ rw full (i, refl)
      | inr room ↦ rw room (
          store-Keeps m a _ s i
            (record {
              queries = o.queries;
              tls_handshakes = o.tls_handshakes;
              ingress = o.ingress;
              tcp = ground (arith, room);
              tls = o.tls;
            })
            known)
    ]

pub tls_from-Keeps :
    (m : Limiter) (a : Addr) (s : Source) (c : Class) (now : ℕ)
    → Inv m
    → SourceOk m.limits s
    → lookup a m.sources ≡ some s
    → Keeps m (tls_from m a s c now).0
unfolding tls_from
tls_from-Keeps m a s c now i o known =
    elim (Bool-cases (leb m.limits.max_tls_connections_per_ip (at s.tls_connections c))) [
      | inl full ↦ rw full (i, refl)
      | inr room ↦ rw room (
          store-Keeps m a _ s i
            (record {
              queries = o.queries;
              tls_handshakes = o.tls_handshakes;
              ingress = o.ingress;
              tcp = o.tcp;
              tls = λ d. put-le s c d _ _ (room_for_one _ _ room) o.tls;
            })
            known)
    ]

pub prune_sources-AllValues :
    (P : Source → Type 0) (m : Assoc Addr Source) (now max_idle : ℕ)
    → AllValues P m
    → AllValues P (prune_sources m now max_idle)
unfolding prune_sources
prune_sources-AllValues P [] now max_idle a = tt
prune_sources-AllValues P ((k, s) ∷ m) now max_idle a =
    elim (Bool-cases (is_stale s now max_idle)) [
      | inl t ↦ rw t (prune_sources-AllValues P m now max_idle a.1)
      | inr f ↦ rw f (a.0, prune_sources-AllValues P m now max_idle a.1)
    ]

pub length-prune_sources :
    (m : Assoc Addr Source) (now max_idle : ℕ) → length (prune_sources m now max_idle) ≤ length m
unfolding prune_sources
length-prune_sources [] now max_idle = omega arith
length-prune_sources ((k, s) ∷ m) now max_idle = elim (Bool-cases (is_stale s now max_idle)) [
  | inl t ↦ rw t (omega (arith, length-prune_sources m now max_idle))
  | inr f ↦ rw f (omega (arith, length-prune_sources m now max_idle))
]

lookup-prune_sources-none :
    (k : Addr) (m : Assoc Addr Source) (now max_idle : ℕ)
    → lookup k m ≡ none
    → lookup k (prune_sources m now max_idle) ≡ none
unfolding prune_sources lookup
lookup-prune_sources-none k [] now max_idle h = h
lookup-prune_sources-none k ((j, s) ∷ m) now max_idle h =
    elim (Bool-cases (is_stale s now max_idle)) [
      | inl t ↦ rw t (lookup-prune_sources-none k m now max_idle (ground (arith, h)))
      | inr f ↦ ground (arith, f, h, lookup-prune_sources-none k m now max_idle)
    ]

pub prune_sources-Distinct :
    (m : Assoc Addr Source) (now max_idle : ℕ)
    → Distinct m
    → Distinct (prune_sources m now max_idle)
unfolding prune_sources
prune_sources-Distinct [] now max_idle d = tt
prune_sources-Distinct ((k, s) ∷ m) now max_idle d = elim (Bool-cases (is_stale s now max_idle)) [
  | inl t ↦ rw t (prune_sources-Distinct m now max_idle d.1)
  | inr f ↦
      rw f
        (lookup-prune_sources-none k m now max_idle d.0, prune_sources-Distinct m now max_idle d.1)
]

pub query_ingress_shared-Keeps :
    (l : Limiter) (size now : ℕ) → Inv l → Keeps l (query_ingress_shared l size now).0
unfolding query_ingress_shared
query_ingress_shared-Keeps l size now v =
    let r = take_global l now in
    let class = protocol_class (codes "dns") in
    let first = take_global-Keeps l now v in
    if-Keeps l (not r.1) (r.0, false) (consume_protocol_ingress r.0 class size now) first
      (Keeps-trans l r.0 (consume_protocol_ingress r.0 class size now).0 first
        (consume_protocol_ingress-Keeps r.0 class size now))

pub query_ingress_from-Keeps :
    (m : Limiter) (a : Addr) (s : Source) (size now : ℕ)
    → Inv m
    → SourceOk m.limits s
    → lookup a m.sources ≡ some s
    → Keeps m (query_ingress_from m a s size now).0
unfolding query_ingress_from
query_ingress_from-Keeps m a s size now i o known =
    let r = take_queries m.limits (seen s now) now in
    let r' = take_ingress m.limits r.0 now size in
    let ok_r = take_queries-SourceOk m.limits (seen s now) now (seen-SourceOk m.limits s now o) in
    let ok_r' = take_ingress-SourceOk m.limits r.0 now size ok_r in
    let l' = store m a r'.0 in
    let stored = store-Keeps m a r'.0 s i ok_r' known in
    if-Keeps m (not r.1) (store m a r.0, false)
      (if not r'.1 then (l', false) else query_ingress_shared l' size now)
      (store-Keeps m a r.0 s i ok_r known)
      (if-Keeps m (not r'.1) (l', false) (query_ingress_shared l' size now) stored
        (Keeps-trans m l' (query_ingress_shared l' size now).0 stored
          (query_ingress_shared-Keeps l' size now)))
