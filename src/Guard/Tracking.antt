-- ===== src/Guard/Tracking.antt =====
-- Which sources the limiter forgets, and how it counts their connections.
use cotten_router.Prelude.{
  ℕ, ◌+◌, ◌<◌, ◌≡◌, sym, subst, ◌↔◌, inl, inr, true, false, [], ◌∷◌, arith, Bool-cases, Assoc, In,
}
use cotten_router.Guard.Address.{Addr, Addr_eq}
use cotten_router.Guard.Class.{Class, at, dns, doh, dot, naiveproxy, stuntls, handshake, tls_other}
use cotten_router.Guard.Limiter.{Source, Limiter, is_idle, tls_connection_count}
use cotten_router.Guard.Connections.{prune, prune_sources, is_stale}

-- No connection of any kind.
pub record Unconnected (s : Source) : Type 0 where
  pub tcp : s.tcp_connections ≡ 0
  pub tls : (c : Class) → at s.tls_connections c ≡ 0

pub is_idle_iff : (s : Source) → (is_idle s ≡ true) ↔ Unconnected s
unfolding is_idle tls_connection_count
is_idle_iff s = (λ h. record { tcp = ground arith; tls = zero_at h }, λ u. counted u)
  where
    zero_at : is_idle s ≡ true → (c : Class) → at s.tls_connections c ≡ 0
    zero_at h dns = ground arith
    zero_at h _ = ground arith

    counted : Unconnected s → is_idle s ≡ true
    counted u = ground (
      arith,
      u.tcp,
      u.tls dns,
      u.tls doh,
      u.tls dot,
      u.tls naiveproxy,
      u.tls stuntls,
      u.tls handshake,
      u.tls tls_other,
    )

abbrev IsStale : Source → ℕ → ℕ → Type 0
IsStale s now max_idle = Unconnected s × (s.last_seen + max_idle < now)

is_stale_iff :
    (s : Source) (now max_idle : ℕ) → (is_stale s now max_idle ≡ true) ↔ IsStale s now max_idle
is_stale_iff s now max_idle = (
  λ h. ((is_idle_iff s).0 (ground (arith, h)), ground (arith, h)),
  λ h. let idle = (is_idle_iff s).1 h.0 in ground (arith, idle, h.1),
)

fresh_not-IsStale :
    (t : Source) (now max_idle : ℕ) → is_stale t now max_idle ≡ false → ¬ IsStale t now max_idle
fresh_not-IsStale t now max_idle kept st = let h = (is_stale_iff t now max_idle).1 st in cc

In-prune_sources :
    (a : Addr) (s : Source) (m : Assoc Addr Source) (now max_idle : ℕ)
    → In (a, s) (prune_sources m now max_idle) ↔ (In (a, s) m × ¬ IsStale s now max_idle)
unfolding prune_sources
In-prune_sources a s [] now max_idle = (λ i. absurd i, λ i. absurd i.0)
In-prune_sources a s ((b, t) ∷ m) now max_idle = elim (Bool-cases (is_stale t now max_idle)) [
  | inl stale ↦
      let rest = In-prune_sources a s m now max_idle in
      rw stale (
        λ i. let r = rest.0 i in (inr r.0, r.1),
        λ i. elim i.0 [
          | inl p ↦ absurd (
              i.1 (
                subst (λ (q : Addr × Source). IsStale q.1 now max_idle) (sym p)
                  ((is_stale_iff t now max_idle).0 stale)))
          | inr j ↦ rest.1 (j, i.1)
        ],
      )
  | inr kept ↦
      let rest = In-prune_sources a s m now max_idle in
      rw kept (
        elim [
          | inl p ↦ (
            inl p,
            λ st.
                fresh_not-IsStale t now max_idle kept
                  (subst (λ (q : Addr × Source). IsStale q.1 now max_idle) p st),
          )
          | inr j ↦ let r = rest.0 j in (inr r.0, r.1)
        ],
        λ i. elim i.0 [ inl p ↦ inl p | inr j ↦ inr (rest.1 (j, i.1)) ],
      )
]

-- Prune forgets exactly the sources that have no connection and were last seen more than `max_idle`
-- before now.
pub In-prune :
    (l : Limiter) (now max_idle : ℕ) (a : Addr) (s : Source)
    → In (a, s) (prune l now max_idle).sources
      ↔ (In (a, s) l.sources × ¬ (Unconnected s × (s.last_seen + max_idle < now)))
unfolding prune
In-prune l now max_idle a s = In-prune_sources a s l.sources now max_idle
