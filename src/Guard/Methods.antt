-- ===== src/Guard/Methods.antt =====
-- Each method of the limiter keeps the invariant.
use cotten_router.Prelude.{
  ℕ, ◌≡◌, refl, inl, inr, Bool, false, not, some, arith, ◌==◌, if◌then◌else◌, Option-cases, Bytes,
  lookup, lookup-AllValues,
}
use cotten_router.Guard.Bucket.{consume}
use cotten_router.Guard.Bucket.Rate.{consume-le-burst}
use cotten_router.Guard.Address.{Addr, is_valid, unmap, Addr_eq}
use cotten_router.Guard.Class.{protocol_class}
use cotten_router.Guard.Limiter.{Source, Limiter, is_trusted}
use cotten_router.Guard.Admission.{
  take_global, take_tls_global, with_source, traffic_for, store_traffic, consume_protocol_ingress,
  handshake_from, query_from, query_ingress_shared, query_ingress_from, source_ingress_from,
  allow_tls_handshake, allow_query, allow_query_ingress, allow_protocol_response,
  allow_protocol_ingress, allow_source_protocol_ingress,
}
use cotten_router.Guard.Connections.{
  tcp_from, tls_from, acquire_tcp, acquire_tls, release_tcp, release_tls, prune,
}
use cotten_router.Guard.Invariant.{Inv, SourceOk}
use cotten_router.Guard.Preserve.{
  Keeps, if-Keeps, store-Keeps, take_global-Keeps, take_tls_global-Keeps, with_source-Keeps,
  store_traffic-Keeps, traffic_for-TrafficOk, consume_protocol_ingress-Keeps,
}
use cotten_router.Guard.Steps.{
  handshake_from-Keeps, query_from-Keeps, source_ingress_from-Keeps, fewer_tcp-SourceOk,
  fewer_tls-SourceOk, tcp_from-Keeps, tls_from-Keeps, prune_sources-AllValues, length-prune_sources,
  prune_sources-Distinct, query_ingress_shared-Keeps, query_ingress_from-Keeps,
}

-- The shape of the methods that look a source up, behind the test of the address.
module _ (l : Limiter) (v : Inv l) (a : Addr) (now : ℕ) where
  pub checked-Keeps :
      (x : Limiter × Bool) (f : Limiter → Source → Limiter × Bool)
      → Keeps l x.0
      → ((m : Limiter) (s : Source)
          → Inv m
          → SourceOk m.limits s
          → lookup a m.sources ≡ some s
          → Keeps m (f m s).0)
      → Keeps l
          (if not (is_valid a)
            then (l, false)
            else if is_trusted l.trusted a
            then x
            else with_source l a now f).0
  checked-Keeps x f h k =
      let found = with_source l a now f in
      if-Keeps l (not (is_valid a)) (l, false) (if is_trusted l.trusted a then x else found)
        (v, refl) (if-Keeps l (is_trusted l.trusted a) x found h (with_source-Keeps l a now f v k))

module _ (l : Limiter) (v : Inv l) where
  pub allow_tls_handshake-Keeps : (a : Addr) (now : ℕ) → Keeps l (allow_tls_handshake l a now).0
  unfolding allow_tls_handshake
  allow_tls_handshake-Keeps a now =
      checked-Keeps l v (unmap a) now (take_tls_global l now)
        (λ m s. handshake_from m (unmap a) s now) (take_tls_global-Keeps l now v)
        (λ m s. handshake_from-Keeps m (unmap a) s now)

  pub allow_query-Keeps : (a : Addr) (now : ℕ) → Keeps l (allow_query l a now).0
  unfolding allow_query
  allow_query-Keeps a now =
      checked-Keeps l v (unmap a) now (take_global l now) (λ m s. query_from m (unmap a) s now)
        (take_global-Keeps l now v) (λ m s. query_from-Keeps m (unmap a) s now)

  pub allow_query_ingress-Keeps :
      (a : Addr) (size now : ℕ) → Keeps l (allow_query_ingress l a size now).0
  unfolding allow_query_ingress
  allow_query_ingress-Keeps a size now =
      let shared = query_ingress_shared l size now in
      if-Keeps l (size == 0) (l, false) _ (v, refl)
        (checked-Keeps l v (unmap a) now shared (λ m s. query_ingress_from m (unmap a) s size now)
          (query_ingress_shared-Keeps l size now v)
          (λ m s. query_ingress_from-Keeps m (unmap a) s size now))

  pub allow_source_protocol_ingress-Keeps :
      (a : Addr) (protocol : Bytes) (size now : ℕ)
      → Keeps l (allow_source_protocol_ingress l a protocol size now).0
  unfolding allow_source_protocol_ingress
  allow_source_protocol_ingress-Keeps a protocol size now =
      let c = protocol_class protocol in
      if-Keeps l (size == 0) (l, false) _ (v, refl)
        (checked-Keeps l v (unmap a) now (consume_protocol_ingress l c size now)
          (λ m s. source_ingress_from m (unmap a) s c size now)
          (consume_protocol_ingress-Keeps l c size now v)
          (λ m s i o k. source_ingress_from-Keeps m (unmap a) s now i o k c size))

  pub allow_protocol_ingress-Keeps :
      (protocol : Bytes) (size now : ℕ) → Keeps l (allow_protocol_ingress l protocol size now).0
  unfolding allow_protocol_ingress
  allow_protocol_ingress-Keeps protocol size now =
      let c = protocol_class protocol in
      if-Keeps l (size == 0) (l, false) (consume_protocol_ingress l c size now) (v, refl)
        (consume_protocol_ingress-Keeps l c size now v)

  pub allow_protocol_response-Keeps :
      (protocol : Bytes) (size now : ℕ) → Keeps l (allow_protocol_response l protocol size now).0
  unfolding allow_protocol_response
  allow_protocol_response-Keeps protocol size now =
      let c = protocol_class protocol in
      let t = traffic_for l c now in
      let ok_t = traffic_for-TrafficOk l c now v in
      let r =
        consume t.responses now l.limits.response_bytes_per_second l.limits.response_burst_bytes
          size in
      let kept =
        consume-le-burst t.responses now l.limits.response_bytes_per_second
          l.limits.response_burst_bytes size ok_t.0 in
      let stored = store_traffic-Keeps l c (record t { responses = r.0 }) v (kept, ok_t.1) in
      if-Keeps l (size == 0) (l, false) _ (v, refl)
        (if-Keeps l (not r.1) (store_traffic l c (record t { responses = r.0 }), false) _ stored
          (
            record {
              global = v.global;
              tls_handshake_global = v.tls_handshake_global;
              aggregate_response =
                  consume-le-burst l.aggregate_response now
                    l.limits.aggregate_response_bytes_per_second
                    l.limits.aggregate_response_burst_bytes size v.aggregate_response;
              aggregate_ingress = v.aggregate_ingress;
              traffic = stored.0.traffic;
              sources = v.sources;
              tracked = v.tracked;
              distinct = v.distinct;
            },
            refl,
          ))

  pub acquire_tcp-Keeps : (a : Addr) (now : ℕ) → Keeps l (acquire_tcp l a now).0
  unfolding acquire_tcp
  acquire_tcp-Keeps a now =
      with_source-Keeps l (unmap a) now (λ m s. tcp_from m (unmap a) s now) v
        (λ m s. tcp_from-Keeps m (unmap a) s now)

  pub acquire_tls-Keeps :
      (a : Addr) (protocol : Bytes) (now : ℕ) → Keeps l (acquire_tls l a protocol now).0
  unfolding acquire_tls
  acquire_tls-Keeps a protocol now =
      let c = protocol_class protocol in
      with_source-Keeps l (unmap a) now (λ m s. tls_from m (unmap a) s c now) v
        (λ m s. tls_from-Keeps m (unmap a) s c now)

  pub release_tcp-Keeps : (a : Addr) (now : ℕ) → Keeps l (release_tcp l a now)
  unfolding release_tcp
  release_tcp-Keeps a now = elim (Option-cases (lookup (unmap a) l.sources)) [
    | inl unknown ↦ rw (unknown, release_tcp) (v, refl)
    | inr (s, known) ↦
        let o = lookup-AllValues (SourceOk l.limits) (unmap a) s l.sources v.sources known in
        rw (known, release_tcp)
          (store-Keeps l (unmap a) _ s v (fewer_tcp-SourceOk l.limits s now o) known)
  ]

  pub release_tls-Keeps :
      (a : Addr) (protocol : Bytes) (now : ℕ) → Keeps l (release_tls l a protocol now)
  unfolding release_tls
  release_tls-Keeps a protocol now = elim (Option-cases (lookup (unmap a) l.sources)) [
    | inl unknown ↦ rw (unknown, release_tls) (v, refl)
    | inr (s, known) ↦
        let o = lookup-AllValues (SourceOk l.limits) (unmap a) s l.sources v.sources known in
        rw (known, release_tls)
          (store-Keeps l (unmap a) _ s v
            (fewer_tls-SourceOk l.limits s (protocol_class protocol) now o) known)
  ]

  pub prune-Keeps : (now max_idle : ℕ) → Keeps l (prune l now max_idle)
  unfolding prune
  prune-Keeps now max_idle = (
    record {
      global = v.global;
      tls_handshake_global = v.tls_handshake_global;
      aggregate_response = v.aggregate_response;
      aggregate_ingress = v.aggregate_ingress;
      traffic = v.traffic;
      sources = prune_sources-AllValues (SourceOk l.limits) l.sources now max_idle v.sources;
      tracked = omega (arith, v.tracked, length-prune_sources l.sources now max_idle);
      distinct = prune_sources-Distinct l.sources now max_idle v.distinct;
    },
    refl,
  )
