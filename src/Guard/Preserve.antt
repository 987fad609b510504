-- ===== src/Guard/Preserve.antt =====
-- Every method keeps the invariant of the limiter and its limits.
use cotten_router.Prelude.{
  ℕ, ◌≡◌, refl, sym, subst, ◌∙◌, inl, inr, Bool, true, false, not, Option, none, some, arith,
  if◌then◌else◌, Option-cases, lookup, length-insert_old, insert-Distinct, insert-AllValues,
}
use cotten_router.Config.Limits.{Limits}
use cotten_router.Guard.Bucket.{consume}
use cotten_router.Guard.Bucket.Rate.{consume-le-burst}
use cotten_router.Guard.Address.{Addr, Addr_eq}
use cotten_router.Guard.Class.{Class-cases, Class, at, put, at-put_self, at-put_ne}
use cotten_router.Guard.Limiter.{Source, TrafficBuckets, Limiter, source_for}
use cotten_router.Guard.Admission.{
  take_global, take_tls_global, take_queries, take_handshakes, take_ingress, store, seen,
  with_source, or_refuse, traffic_for, store_traffic, consume_protocol_ingress,
}
use cotten_router.Guard.Invariant.{Inv, SourceOk, TrafficOk, Found, source_for-Found}

-- The invariant holds again, and the limits are the same.
abbrev pub Keeps : Limiter → Limiter → Type 0
Keeps l l' = Inv l' × (l'.limits ≡ l.limits)

pub if-Keeps :
    (l : Limiter) (b : Bool) (x y : Limiter × Bool)
    → Keeps l x.0
    → Keeps l y.0
    → Keeps l (if b then x else y).0
if-Keeps l true x y h k = h
if-Keeps l false x y h k = k

pub Keeps-trans : (l m n : Limiter) → Keeps l m → (Inv m → Keeps m n) → Keeps l n
Keeps-trans l m n a f = let b = f a.0 in (b.0, b.1 ∙ a.1)

pub store-Keeps :
    (l : Limiter) (address : Addr) (s w : Source)
    → Inv l
    → SourceOk l.limits s
    → lookup address l.sources ≡ some w
    → Keeps l (store l address s)
store-Keeps l address s w v good known = (
  record {
    global = v.global;
    tls_handshake_global = v.tls_handshake_global;
    aggregate_response = v.aggregate_response;
    aggregate_ingress = v.aggregate_ingress;
    traffic = v.traffic;
    sources = insert-AllValues (SourceOk l.limits) address s l.sources v.sources good;
    tracked = omega (arith, v.tracked, length-insert_old address s w l.sources known);
    distinct = insert-Distinct address s l.sources v.distinct;
  },
  refl,
)

pub take_global-Keeps : (l : Limiter) (now : ℕ) → Inv l → Keeps l (take_global l now).0
unfolding take_global
take_global-Keeps l now v = (
  record {
    global =
        consume-le-burst l.global now l.limits.global_queries_per_second l.limits.global_query_burst
          1 v.global;
    tls_handshake_global = v.tls_handshake_global;
    aggregate_response = v.aggregate_response;
    aggregate_ingress = v.aggregate_ingress;
    traffic = v.traffic;
    sources = v.sources;
    tracked = v.tracked;
    distinct = v.distinct;
  },
  refl,
)

pub take_tls_global-Keeps : (l : Limiter) (now : ℕ) → Inv l → Keeps l (take_tls_global l now).0
unfolding take_tls_global
take_tls_global-Keeps l now v = (
  record {
    global = v.global;
    tls_handshake_global =
        consume-le-burst l.tls_handshake_global now l.limits.global_queries_per_second
          l.limits.global_query_burst 1 v.tls_handshake_global;
    aggregate_response = v.aggregate_response;
    aggregate_ingress = v.aggregate_ingress;
    traffic = v.traffic;
    sources = v.sources;
    tracked = v.tracked;
    distinct = v.distinct;
  },
  refl,
)

-- A method that looks its source up first.
pub with_source-Keeps :
    (l : Limiter) (address : Addr) (now : ℕ) (f : Limiter → Source → Limiter × Bool)
    → Inv l
    → ((m : Limiter) (s : Source)
        → Inv m
        → SourceOk m.limits s
        → lookup address m.sources ≡ some s
        → Keeps m (f m s).0)
    → Keeps l (with_source l address now f).0
with_source-Keeps l address now f v h =
    go (source_for l address now) (source_for-Found l address now v)
  where
    go : (r : Limiter × Option Source) → Found l address r → Keeps l (or_refuse f r).0
    go (m, none) found = found
    go (m, some s) found =
        let same : m.limits ≡ l.limits = found.1 in
        let next = h m s found.0 (subst (λ k. SourceOk k s) (sym same) found.3) found.2 in
        (next.0, next.1 ∙ same)

pub seen-SourceOk : (l : Limits ℕ) (s : Source) (now : ℕ) → SourceOk l s → SourceOk l (seen s now)
seen-SourceOk l s now o = record {
  queries = o.queries;
  tls_handshakes = o.tls_handshakes;
  ingress = o.ingress;
  tcp = o.tcp;
  tls = o.tls;
}

pub take_queries-SourceOk :
    (l : Limits ℕ) (s : Source) (now : ℕ) → SourceOk l s → SourceOk l (take_queries l s now).0
take_queries-SourceOk l s now o = record {
  queries =
      consume-le-burst s.queries now l.per_ip_queries_per_second l.per_ip_query_burst 1 o.queries;
  tls_handshakes = o.tls_handshakes;
  ingress = o.ingress;
  tcp = o.tcp;
  tls = o.tls;
}

pub take_handshakes-SourceOk :
    (l : Limits ℕ) (s : Source) (now : ℕ) → SourceOk l s → SourceOk l (take_handshakes l s now).0
take_handshakes-SourceOk l s now o = record {
  queries = o.queries;
  tls_handshakes =
      consume-le-burst s.tls_handshakes now l.per_ip_queries_per_second l.per_ip_query_burst 1
        o.tls_handshakes;
  ingress = o.ingress;
  tcp = o.tcp;
  tls = o.tls;
}

pub take_ingress-SourceOk :
    (l : Limits ℕ) (s : Source) (now size : ℕ)
    → SourceOk l s
    → SourceOk l (take_ingress l s now size).0
take_ingress-SourceOk l s now size o = record {
  queries = o.queries;
  tls_handshakes = o.tls_handshakes;
  ingress =
      consume-le-burst s.ingress now l.per_ip_ingress_bytes_per_second l.per_ip_ingress_burst_bytes
        size o.ingress;
  tcp = o.tcp;
  tls = o.tls;
}

pub put-TrafficOk :
    (k : Limits ℕ) (l : Limiter) (c d : Class) (t : TrafficBuckets)
    → ((e : Class) → TrafficOk k (at l.traffic e))
    → TrafficOk k (some t)
    → TrafficOk k (at (put l.traffic c (some t)) d)
put-TrafficOk k l c d t v h = elim (Class-cases c d) [
  | inl same ↦ rw (sym same, at-put_self l.traffic c (some t)) h
  | inr other ↦ rw (at-put_ne l.traffic c d (some t) other) (v d)
]

pub store_traffic-Keeps :
    (l : Limiter) (c : Class) (t : TrafficBuckets)
    → Inv l
    → TrafficOk l.limits (some t)
    → Keeps l (store_traffic l c t)
store_traffic-Keeps l c t v h = (
  record {
    global = v.global;
    tls_handshake_global = v.tls_handshake_global;
    aggregate_response = v.aggregate_response;
    aggregate_ingress = v.aggregate_ingress;
    traffic = λ d. put-TrafficOk l.limits l c d t v.traffic h;
    sources = v.sources;
    tracked = v.tracked;
    distinct = v.distinct;
  },
  refl,
)

pub traffic_for-TrafficOk :
    (l : Limiter) (c : Class) (now : ℕ) → Inv l → TrafficOk l.limits (some (traffic_for l c now))
unfolding traffic_for
traffic_for-TrafficOk l c now v = elim (Option-cases (at l.traffic c)) [
  | inl new ↦ rw (new, traffic_for) (omega arith, omega arith)
  | inr (t, known) ↦ rw (known, traffic_for) (subst (TrafficOk l.limits) known (v.traffic c))
]

pub consume_protocol_ingress-Keeps :
    (l : Limiter) (c : Class) (size now : ℕ)
    → Inv l
    → Keeps l (consume_protocol_ingress l c size now).0
unfolding consume_protocol_ingress
consume_protocol_ingress-Keeps l c size now v =
    let t = traffic_for l c now in
    let ok_t = traffic_for-TrafficOk l c now v in
    let r =
      consume t.ingress now l.limits.ingress_bytes_per_second l.limits.ingress_burst_bytes size in
    let kept =
      consume-le-burst t.ingress now l.limits.ingress_bytes_per_second l.limits.ingress_burst_bytes
        size ok_t.1 in
    let t' = record t { ingress = r.0 } in
    let stored = store_traffic-Keeps l c t' v (ok_t.0, kept) in
    if-Keeps l (not r.1) _ _ stored (
      record {
        global = v.global;
        tls_handshake_global = v.tls_handshake_global;
        aggregate_response = v.aggregate_response;
        aggregate_ingress =
            consume-le-burst l.aggregate_ingress now l.limits.aggregate_ingress_bytes_per_second
              l.limits.aggregate_ingress_burst_bytes size v.aggregate_ingress;
        traffic = stored.0.traffic;
        sources = v.sources;
        tracked = v.tracked;
        distinct = v.distinct;
      },
      refl,
    )
