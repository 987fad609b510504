-- ===== src/Guard/Isolation.antt =====
-- A client that exceeds its own limits costs nobody else anything.
use cotten_router.Prelude.{
  ℕ, ◌≡◌, refl, sym, ap, ◌∙◌, ◌≢◌, inl, inr, Bool, true, false, ◌&&◌, Option, none, some, arith,
  ◌==◌, if◌then◌else◌, Bool-cases, lookup, lookup-insert,
}
use cotten_router.Guard.Bucket.{consume}
use cotten_router.Guard.Address.{unmap, is_valid, Addr, Addr_eq, addr_eq, addr_eq_iff}
use cotten_router.Guard.Limiter.{is_trusted, source_for, Source, Limiter}
use cotten_router.Guard.Admission.{
  allow_query_ingress, query_ingress_from, take_queries, take_ingress, store, seen,
}

-- The source's own two buckets let the query and its bytes through.
abbrev pub own_buckets_pass : Limiter → Source → ℕ → ℕ → Bool
own_buckets_pass l s size now =
    (consume s.queries now l.limits.per_ip_queries_per_second l.limits.per_ip_query_burst 1).1
    && (consume s.ingress now l.limits.per_ip_ingress_bytes_per_second
        l.limits.per_ip_ingress_burst_bytes size).1

-- Nothing that other clients share has changed, nor another client's source.
pub record OthersUntouched (l l' : Limiter) (a : Addr) : Type 0 where
  pub limits : l'.limits ≡ l.limits
  pub global : l'.global ≡ l.global
  pub tls_handshake_global : l'.tls_handshake_global ≡ l.tls_handshake_global
  pub aggregate_response : l'.aggregate_response ≡ l.aggregate_response
  pub aggregate_ingress : l'.aggregate_ingress ≡ l.aggregate_ingress
  pub traffic : l'.traffic ≡ l.traffic
  pub trusted : l'.trusted ≡ l.trusted
  pub last_recycle : l'.last_recycle ≡ l.last_recycle
  pub others : (b : Addr) → b ≢ a → lookup b l'.sources ≡ lookup b l.sources

store-OthersUntouched : (l : Limiter) (a : Addr) (s : Source) → OthersUntouched l (store l a s) a
store-OthersUntouched l a s = record {
  limits = refl;
  global = refl;
  tls_handshake_global = refl;
  aggregate_response = refl;
  aggregate_ingress = refl;
  traffic = refl;
  trusted = refl;
  last_recycle = refl;
  others = λ b other. lookup-insert a b s l.sources ∙ miss b other;
}
  where
    miss :
        (b : Addr)
        → b ≢ a
        → (if addr_eq a b then some s else lookup b l.sources) ≡ lookup b l.sources
    miss b other = elim (Bool-cases (addr_eq a b)) [
      | inl same ↦ absurd (other (sym ((addr_eq_iff a b).0 same)))
      | inr ne ↦ rw ne refl
    ]

refused-OthersUntouched :
    (l : Limiter) (a : Addr) (s : Source) (size now : ℕ)
    → own_buckets_pass l s size now ≡ false
    → ((query_ingress_from l a s size now).1 ≡ false)
      × OthersUntouched l (query_ingress_from l a s size now).0 a
unfolding query_ingress_from
refused-OthersUntouched l a s size now h =
    let r = take_queries l.limits (seen s now) now in
    let r' = take_ingress l.limits r.0 now size in
    elim (Bool-cases r.1) [
      | inr refused ↦ rw refused (refl, store-OthersUntouched l a r.0)
      | inl passed ↦
          let refused : r'.1 ≡ false = rw passed at h in
          rw (passed, refused) (refl, store-OthersUntouched l a r'.0)
    ]

invalid_none :
    (l : Limiter) (a : Addr) (now : ℕ) → is_valid a ≡ false → (source_for l a now).1 ≡ none
unfolding source_for
invalid_none l a now bad = rw bad refl

source_for-is_valid :
    (l : Limiter) (a : Addr) (now : ℕ) (m : Limiter) (s : Source)
    → source_for l a now ≡ (m, some s)
    → is_valid a ≡ true
source_for-is_valid l a now m s h = elim (Bool-cases (is_valid a)) [
  | inl valid ↦ valid
  | inr bad ↦ absurd (no_source (source_for l a now).1 (invalid_none l a now bad) (ap (λ r. r.1) h))
]
  where
    no_source : (o : Option Source) → o ≡ none → o ≡ some s → ⊥
    no_source o e f = cc

-- A client that is not trusted and exceeds its own query or byte rate is refused, and the refusal
-- spends nothing of the shared buckets and changes no other client's source. The comparison is with
-- the limiter behind the lookup of the client's own source.
pub allow_query_ingress-OthersUntouched :
    (l m : Limiter) (a : Addr) (s : Source) (size now : ℕ)
    → size ≢ 0
    → is_trusted l.trusted (unmap a) ≡ false
    → source_for l (unmap a) now ≡ (m, some s)
    → own_buckets_pass m s size now ≡ false
    → ((allow_query_ingress l a size now).1 ≡ false)
      × OthersUntouched m (allow_query_ingress l a size now).0 (unmap a)
unfolding allow_query_ingress
allow_query_ingress-OthersUntouched l m a s size now some_bytes untrusted found over =
    let sized : (size == 0) ≡ false = ground arith in
    let valid : is_valid (unmap a) ≡ true = source_for-is_valid l (unmap a) now m s found in
    rw (sized, valid, untrusted, found) (refused-OthersUntouched m (unmap a) s size now over)
