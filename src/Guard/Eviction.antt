-- ===== src/Guard/Eviction.antt =====
-- Which source sourceFor drops to make room for a new one.
use cotten_router.Prelude.{
  ℕ, ◌+◌, ◌-◌, ◌≤◌, ◌≡◌, sym, subst, ◌∙◌, ◌≢◌, ◌⊎◌, inl, inr, true, false, ◌&&◌, Option, none, some,
  [], ◌∷◌, arith, ltb, leb, Bool-cases, Option-cases, length, Assoc, lookup, erase, In, In-lookup,
  lookup-In, lookup-insert_ne, lookup-erase_ne,
}
use cotten_router.Guard.Address.{Addr, is_valid, Addr_eq, addr_eq, addr_eq_iff}
use cotten_router.Guard.Limiter.{
  Source, Limiter, source_for, recycle, admit, oldest_idle, seen_before, is_idle, minute,
  looked_within_second, fresh_source,
}
use cotten_router.Guard.Invariant.{Inv, oldest_idle-In}
use cotten_router.Guard.Tracking.{Unconnected, is_idle_iff}

-- Seen no later than each idle source of the list.
abbrev Oldest : ℕ → Assoc Addr Source → Type 0
Oldest n m = (c : Addr) (t : Source) → In (c, t) m → is_idle t ≡ true → n ≤ t.last_seen

abbrev NoLater : ℕ → Option (Addr × Source) → Type 0
NoLater n none = Unit {0}
NoLater n (some (_, t)) = n ≤ t.last_seen

idle_case :
    (t : Source) (best : Option (Addr × Source)) (n : ℕ)
    → is_idle t && seen_before t best ≡ false
    → is_idle t ≡ true
    → NoLater n best
    → n ≤ t.last_seen
idle_case t none n h idle le = absurd (ground (arith, h, idle))
idle_case t (some (b, o)) n h idle le = ground (arith, h, idle, le)

better_case :
    (t : Source) (best : Option (Addr × Source)) (n : ℕ)
    → is_idle t && seen_before t best ≡ true
    → n ≤ t.last_seen
    → NoLater n best
better_case t none n h le = tt
better_case t (some (b, o)) n h le = ground (arith, h, le)

oldest_idle-Oldest :
    (m : Assoc Addr Source) (best : Option (Addr × Source)) (a : Addr) (s : Source)
    → oldest_idle m best ≡ some (a, s)
    → Oldest s.last_seen m × NoLater s.last_seen best
unfolding oldest_idle
oldest_idle-Oldest [] best a s h = ((λ c t i idle. absurd i), rw h (omega arith))
oldest_idle-Oldest ((b, t) ∷ m) best a s h = elim (Bool-cases (is_idle t && seen_before t best)) [
  | inr worse ↦
      let rest = oldest_idle-Oldest m best a s (rw worse at h) in
      (
        (λ c r i idle. elim i [
          | inl p ↦
              subst (λ (q : Addr × Source). s.last_seen ≤ q.1.last_seen) (sym p)
                (idle_case t best s.last_seen worse
                  (subst (λ (q : Addr × Source). is_idle q.1 ≡ true) p idle) rest.1)
          | inr j ↦ rest.0 c r j idle
        ]),
        rest.1,
      )
  | inl better ↦
      let rest = oldest_idle-Oldest m (some (b, t)) a s (rw better at h) in
      (
        (λ c r i idle. elim i [
          | inl p ↦ subst (λ (q : Addr × Source). s.last_seen ≤ q.1.last_seen) (sym p) rest.1
          | inr j ↦ rest.0 c r j idle
        ]),
        better_case t best s.last_seen better rest.1,
      )
]

-- The source may be dropped now: it has no connection, has not been seen for a minute, and no
-- source without connections was seen earlier.
pub record Droppable (l : Limiter) (s : Source) (now : ℕ) : Type 0 where
  pub unconnected : Unconnected s
  pub idle_for_minute : s.last_seen + minute ≤ now
  pub oldest :
      (c : Addr) (t : Source)
      → lookup c l.sources ≡ some t
      → Unconnected t
      → s.last_seen ≤ t.last_seen

-- The entry is there still, or it could be dropped.
abbrev Survives : Limiter → Limiter → Addr → Source → ℕ → Type 0
Survives l m b s now = (lookup b m.sources ≡ some s) ⊎ Droppable l s now

admit-Survives :
    (l k : Limiter) (a b : Addr) (s : Source) (now : ℕ)
    → b ≢ a
    → Survives l k b s now
    → Survives l (admit k a now).0 b s now
admit-Survives l k a b s now other (inl h) =
    inl (lookup-insert_ne a b (fresh_source k.limits now) k.sources other ∙ h)
admit-Survives l k a b s now other (inr d) = inr d

evict-Survives :
    (l : Limiter) (a b c : Addr) (s t : Source) (now : ℕ)
    → Inv l
    → b ≢ a
    → lookup b l.sources ≡ some s
    → oldest_idle l.sources none ≡ some (c, t)
    → ltb (now - t.last_seen) minute ≡ false
    → Survives l (record l { sources = erase c l.sources; last_recycle = some now }) b s now
evict-Survives l a b c s t now v other known e idle = elim (Bool-cases (addr_eq c b)) [
  | inr ne ↦ inl (lookup-erase_ne c b l.sources (λ p. cc ((addr_eq_iff c b).1 (sym p))) ∙ known)
  | inl same ↦ elim (oldest_idle-In l.sources none c t e) [
    | inl absent ↦ cc
    | inr (i, alone) ↦
        let at_b : lookup b l.sources ≡ some t =
          subst (λ k. lookup k l.sources ≡ some t) ((addr_eq_iff c b).0 same)
            (In-lookup c t l.sources v.distinct i) in
        let is_s : t ≡ s = cc in
        let least = (oldest_idle-Oldest l.sources none c t e).0 in
        inr (
          subst (λ r. Droppable l r now) is_s
            (record {
              unconnected = (is_idle_iff t).0 alone;
              idle_for_minute = ground (arith, idle);
              oldest = λ d r k u. least d r (lookup-In d r l.sources k) ((is_idle_iff r).1 u);
            }))
  ]
]

recycle-Survives :
    (l : Limiter) (a b : Addr) (s : Source) (now : ℕ)
    → Inv l
    → b ≢ a
    → lookup b l.sources ≡ some s
    → Survives l (recycle l a now).0 b s now
unfolding recycle
recycle-Survives l a b s now v other known =
    elim (Bool-cases (looked_within_second l.last_recycle now)) [
      | inl soon ↦ rw soon (inl known)
      | inr late ↦ elim (Option-cases (oldest_idle l.sources none)) [
        | inl nobody ↦ rw (late, nobody, recycle) (inl known)
        | inr ((c, t), e) ↦ elim (Bool-cases (ltb (now - t.last_seen) minute)) [
          | inl busy ↦ rw (late, e, recycle) (rw busy (inl known))
          | inr idle ↦
              rw (late, e, recycle)
                (rw idle (
                  admit-Survives l
                    (record l { sources = erase c l.sources; last_recycle = some now }) a b s now
                    other (evict-Survives l a b c s t now v other known e idle)))
        ]
      ]
    ]

-- Looking up one address never loses the source of another, unless that source has no connection,
-- has not been seen for a minute, and is the longest unseen of all such sources. A flood of new
-- addresses cannot reset the buckets of a client that is active.
pub source_for-Survives :
    (l : Limiter) (a b : Addr) (s : Source) (now : ℕ)
    → Inv l
    → b ≢ a
    → lookup b l.sources ≡ some s
    → (lookup b (source_for l a now).0.sources ≡ some s) ⊎ Droppable l s now
unfolding source_for
source_for-Survives l a b s now v other known = elim (Bool-cases (is_valid a)) [
  | inr bad ↦ rw bad (inl known)
  | inl good ↦ elim (Option-cases (lookup a l.sources)) [
    | inr (t, e) ↦ rw (good, e, source_for) (inl known)
    | inl new ↦ elim (Bool-cases (leb l.limits.max_tracked_ips (length l.sources))) [
      | inl full ↦ rw (good, new, source_for) (rw full (recycle-Survives l a b s now v other known))
      | inr room ↦
          rw (good, new, source_for) (rw room (admit-Survives l l a b s now other (inl known)))
    ]
  ]
]
