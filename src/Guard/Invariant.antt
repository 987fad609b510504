-- ===== src/Guard/Invariant.antt =====
-- The invariant of the limiter, and the two pieces of every method: looking a source up, and taking
-- tokens from a bucket.
use cotten_router.Prelude.{
  ℕ, ◌-◌, ◌*◌, ◌≤◌, ◌<◌, ◌≡◌, refl, sym, subst, ◌⊎◌, inl, inr, Bool, true, ◌&&◌, Option, none, some,
  [], ◌∷◌, arith, ltb, leb, Bool-cases, Option-cases, length, Assoc, lookup, erase, length-erase-le,
  In, lookup-insert_self, length-insert-le, length-erase-lt_of_In, Distinct, insert-Distinct,
  erase-Distinct, AllValues, lookup-AllValues, insert-AllValues, erase-AllValues,
}
use cotten_router.Config.Limits.{Limits}
use cotten_router.Guard.Bucket.{Bucket, unit}
use cotten_router.Guard.Address.{Addr, is_valid, Addr_eq}
use cotten_router.Guard.Class.{Class, at, dns}
use cotten_router.Guard.Limiter.{
  looked_within_second, seen_before, Source, TrafficBuckets, Limiter, is_idle, oldest_idle,
  fresh_source, admit, recycle, source_for, minute,
}

-- A bucket holds at most its burst.
abbrev pub Holds : Bucket → ℕ → Type 0
Holds b burst = b.tokens ≤ burst * unit

pub record SourceOk (l : Limits ℕ) (s : Source) : Type 0 where
  pub queries : Holds s.queries l.per_ip_query_burst
  pub tls_handshakes : Holds s.tls_handshakes l.per_ip_query_burst
  pub ingress : Holds s.ingress l.per_ip_ingress_burst_bytes
  pub tcp : s.tcp_connections ≤ l.max_tcp_connections_per_ip
  pub tls : (c : Class) → at s.tls_connections c ≤ l.max_tls_connections_per_ip

abbrev pub TrafficOk : Limits ℕ → Option TrafficBuckets → Type 0
TrafficOk l none = Unit {0}
TrafficOk l (some t) =
    Holds t.responses l.response_burst_bytes × Holds t.ingress l.ingress_burst_bytes

-- No bucket holds more than its burst, no source has more connections than it may, and no more
-- sources are tracked than configured.
pub record Inv (l : Limiter) : Type 0 where
  pub global : Holds l.global l.limits.global_query_burst
  pub tls_handshake_global : Holds l.tls_handshake_global l.limits.global_query_burst
  pub aggregate_response : Holds l.aggregate_response l.limits.aggregate_response_burst_bytes
  pub aggregate_ingress : Holds l.aggregate_ingress l.limits.aggregate_ingress_burst_bytes
  pub traffic : (c : Class) → TrafficOk l.limits (at l.traffic c)
  pub sources : AllValues (SourceOk l.limits) l.sources
  pub tracked : length l.sources ≤ l.limits.max_tracked_ips
  pub distinct : Distinct l.sources

pub fresh_source-SourceOk : (l : Limits ℕ) (now : ℕ) → SourceOk l (fresh_source l now)
fresh_source-SourceOk l now = record {
  queries = omega arith;
  tls_handshakes = omega arith;
  ingress = omega arith;
  tcp = omega arith;
  tls = zero_le;
}
  where
    zero_le : (c : Class) → at (fresh_source l now).tls_connections c ≤ l.max_tls_connections_per_ip
    zero_le dns = omega arith
    zero_le _ = omega arith

and_left : (a b : Bool) → a && b ≡ true → a ≡ true
and_left a b h = ground arith

some-eq : {A : Type 0} {x y : A} → some x ≡ some y → x ≡ y
some-eq h = cc

pub oldest_idle-In :
    (m : Assoc Addr Source) (best : Option (Addr × Source)) (a : Addr) (s : Source)
    → oldest_idle m best ≡ some (a, s)
    → (best ≡ some (a, s)) ⊎ (In (a, s) m × (is_idle s ≡ true))
unfolding oldest_idle
oldest_idle-In [] best a s h = inl h
oldest_idle-In ((b, t) ∷ m) best a s h = elim (Bool-cases (is_idle t && seen_before t best)) [
  | inr worse ↦ elim (oldest_idle-In m best a s (rw worse at h)) [
    | inl e ↦ inl e
    | inr (i, idle) ↦ inr (inr i, idle)
  ]
  | inl better ↦ elim (oldest_idle-In m (some (b, t)) a s (rw better at h)) [
    | inl e ↦
        let same : (a, s) ≡ (b, t) = some-eq (sym e) in
        let idle : is_idle t ≡ true = and_left (is_idle t) _ better in
        inr (inl same, subst (λ p. is_idle p.1 ≡ true) (sym same) idle)
    | inr (i, idle) ↦ inr (inr i, idle)
  ]
]

-- What sourceFor gives: the same limits, and the entry of the address, if there is one.
abbrev pub Found : Limiter → Addr → Limiter × Option Source → Type 0
Found l address (l', none) = Inv l' × (l'.limits ≡ l.limits)
Found l address (l', some s) =
    Inv l' × (l'.limits ≡ l.limits) × (lookup address l'.sources ≡ some s) × SourceOk l.limits s

admit-Found :
    (l : Limiter) (address : Addr) (now : ℕ)
    → Inv l
    → length l.sources < l.limits.max_tracked_ips
    → Found l address (admit l address now)
admit-Found l address now v room =
    let s = fresh_source l.limits now in
    let ok_s = fresh_source-SourceOk l.limits now in
    (
      record {
        global = v.global;
        tls_handshake_global = v.tls_handshake_global;
        aggregate_response = v.aggregate_response;
        aggregate_ingress = v.aggregate_ingress;
        traffic = v.traffic;
        sources = insert-AllValues (SourceOk l.limits) address s l.sources v.sources ok_s;
        tracked = omega (arith, length-insert-le address s l.sources);
        distinct = insert-Distinct address s l.sources v.distinct;
      },
      refl,
      lookup-insert_self address s l.sources,
      ok_s,
    )

Inv-looked : (l : Limiter) (now : ℕ) → Inv l → Inv (record l { last_recycle = some now })
Inv-looked l now v = record {
  global = v.global;
  tls_handshake_global = v.tls_handshake_global;
  aggregate_response = v.aggregate_response;
  aggregate_ingress = v.aggregate_ingress;
  traffic = v.traffic;
  sources = v.sources;
  tracked = v.tracked;
  distinct = v.distinct;
}

-- The limiter with one source dropped.
abbrev evicted : Limiter → ℕ → Addr → Limiter
evicted l now candidate = record l { sources = erase candidate l.sources; last_recycle = some now }

Inv-evicted : (l : Limiter) (now : ℕ) (candidate : Addr) → Inv l → Inv (evicted l now candidate)
Inv-evicted l now candidate v = record {
  global = v.global;
  tls_handshake_global = v.tls_handshake_global;
  aggregate_response = v.aggregate_response;
  aggregate_ingress = v.aggregate_ingress;
  traffic = v.traffic;
  sources = erase-AllValues (SourceOk l.limits) candidate l.sources v.sources;
  tracked = omega (arith, v.tracked, length-erase-le candidate l.sources);
  distinct = erase-Distinct candidate l.sources v.distinct;
}

evicted_room :
    (l : Limiter) (now : ℕ) (candidate : Addr) (s : Source)
    → Inv l
    → oldest_idle l.sources none ≡ some (candidate, s)
    → length (erase candidate l.sources) < l.limits.max_tracked_ips
evicted_room l now candidate s v e = elim (oldest_idle-In l.sources none candidate s e) [
  | inl absent ↦ cc
  | inr (i, _) ↦ omega (arith, v.tracked, length-erase-lt_of_In candidate s l.sources i)
]

recycle-Found :
    (l : Limiter) (address : Addr) (now : ℕ) → Inv l → Found l address (recycle l address now)
unfolding recycle
recycle-Found l address now v = elim (Bool-cases (looked_within_second l.last_recycle now)) [
  | inl soon ↦ rw soon (v, refl)
  | inr late ↦ elim (Option-cases (oldest_idle l.sources none)) [
    | inl nobody ↦ rw (late, nobody, recycle) (Inv-looked l now v, refl)
    | inr ((candidate, s), e) ↦ elim (Bool-cases (ltb (now - s.last_seen) minute)) [
      | inl busy ↦ rw (late, e, recycle) (rw busy (Inv-looked l now v, refl))
      | inr idle ↦
          rw (late, e, recycle)
            (rw idle (
              admit-Found (evicted l now candidate) address now (Inv-evicted l now candidate v)
                (evicted_room l now candidate s v e)))
    ]
  ]
]

pub source_for-Found :
    (l : Limiter) (address : Addr) (now : ℕ) → Inv l → Found l address (source_for l address now)
unfolding source_for
source_for-Found l address now v = elim (Bool-cases (is_valid address)) [
  | inr bad ↦ rw bad (v, refl)
  | inl good ↦ elim (Option-cases (lookup address l.sources)) [
    | inl new ↦ elim (Bool-cases (leb l.limits.max_tracked_ips (length l.sources))) [
      | inl full ↦ rw (good, new, source_for) (rw full (recycle-Found l address now v))
      | inr room ↦ rw (good, new, source_for) (rw room (admit-Found l address now v (ground arith)))
    ]
    | inr (s, known) ↦
        rw (good, known, source_for)
          (v, refl, known, lookup-AllValues (SourceOk l.limits) address s l.sources v.sources known)
  ]
]
