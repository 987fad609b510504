-- ===== src/Router/Pools/Effects.antt =====
-- What acquireTCPClient, acquireTLSHandshake and acquireTLSProtocol do to the places.
use cotten_router.Prelude.{
  ℕ, suc, ◌+◌, ◌≤◌, ◌≡◌, refl, sym, ap, subst, ◌∙◌, inl, inr, true, false, Option, none, some, List,
  ◌++◌, arith, ltb, ◌==◌, if◌then◌else◌, Bool-cases, bytes_eq_iff, lookup, insert, lookup-insert,
  In-append_right, Bytes_eq, nat_eq,
}
use cotten_router.Guard.Limiter.{Limiter}
use cotten_router.Router.Pools.{Pools}
use cotten_router.Router.Pools.Leases.{
  Pool, tcp_pool, handshake_pool, class_pool, pool_eq, held_of, Lease, size_of,
}
use cotten_router.Router.Pools.Balance.{weight, Registered, Effect, Shifted, Lasting}

-- A change of the limiter, and calls of Close.
abbrev pub beside : Pools → Limiter → List ℕ → Pools
beside p g more = record p { guard = g; closed = more ++ p.closed }

held-beside :
    (p : Pools) (g : Limiter) (more : List ℕ) (q : Pool) → held_of (beside p g more) q ≡ held_of p q
held-beside p g more tcp_pool = refl
held-beside p g more _ = refl

Registered-beside :
    (p : Pools) (g : Limiter) (more : List ℕ) (conn : ℕ) (l : Option Lease)
    → Registered p conn l
    → Registered (beside p g more) conn l
Registered-beside p g more conn none r = tt
Registered-beside p g more conn (some none) r = r
Registered-beside p g more conn (some (some q)) r = (r.0, (r.1.0, held-beside p g more q ∙ r.1.1))

module _ (tcp_size tls_size : ℕ) where
  -- A refusal changes nothing but the limiter.
  pub refusal :
      (p : Pools) (g : Limiter) (more : List ℕ) (conn : ℕ) (l : Option Lease)
      → Effect tcp_size tls_size p (beside p g more) conn l l
  refusal p g more conn l = record {
    places = λ q n h. (n, sym (held-beside p g more q) ∙ h, refl, λ le. le);
    pools_last = λ q n h. (n, held-beside p g more q ∙ h);
    others = λ j other h. h;
    own = Registered-beside p g more conn l;
    done_lasts = λ h. h;
    closed_lasts = λ j i. In-append_right j more p.closed i;
    none_admitted = λ d n. n;
  }

  pub others-insert :
      (p : Pools) (conn j : ℕ)
      → (conn == j) ≡ false
      → lookup j p.connections ≡ some tt
      → lookup j (insert conn tt p.connections) ≡ some tt
  others-insert p conn j other h = rw (lookup-insert conn j tt p.connections, other) h

  pub pool_same : (r q : Pool) → pool_eq r q ≡ true → r ≡ q
  pool_same tcp_pool tcp_pool h = refl
  pool_same handshake_pool handshake_pool h = refl
  pool_same (class_pool c) (class_pool d) h = ap class_pool ((bytes_eq_iff c d).0 h)
  pool_same r q h = absurd (cc h)

  -- One pool's places change from n to m.
  pub changed :
      (p p' : Pools) (r : Pool) (n m : ℕ) (before after : Option Lease)
      → held_of p r ≡ some n
      → ((q : Pool) → held_of p' q ≡ (if pool_eq r q then some m else held_of p q))
      → ((q : Pool) → pool_eq r q ≡ true → m + weight q before ≡ n + weight q after)
      → ((q : Pool) → pool_eq r q ≡ false → weight q before ≡ weight q after)
      → (n ≤ size_of tcp_size tls_size r → m ≤ size_of tcp_size tls_size r)
      → Shifted tcp_size tls_size p p' before after × Lasting p p'
  changed p p' r n m before after known is there elsewhere room = (shifted, last)
    where
      shifted : Shifted tcp_size tls_size p p' before after
      shifted q n' h = elim (Bool-cases (pool_eq r q)) [
        | inl t ↦
            let chosen : (if pool_eq r q then some m else held_of p q) ≡ some m = rw t refl in
            let found : some m ≡ some n' = sym chosen ∙ sym (is q) ∙ h in
            let same : m ≡ n' = cc in
            (
              n,
              subst (λ x. held_of p x ≡ some n) (pool_same r q t) known,
              ap (λ k. k + weight q before) (sym same) ∙ there q t,
              subst (λ x. n ≤ size_of tcp_size tls_size x → n' ≤ size_of tcp_size tls_size x)
                  (pool_same r q t)
                  (λ le. subst (λ k. k ≤ size_of tcp_size tls_size r) same (room le)),
            )
        | inr f ↦
            let chosen : (if pool_eq r q then some m else held_of p q) ≡ held_of p q = rw f refl in
            let found : held_of p q ≡ some n' = sym chosen ∙ sym (is q) ∙ h in
            (n', found, ap (λ k. n' + k) (elsewhere q f), λ le. le)
      ]

      last : Lasting p p'
      last q k h = elim (Bool-cases (pool_eq r q)) [
        | inl t ↦ (m, is q ∙ rw t refl)
        | inr f ↦ (k, is q ∙ rw f h)
      ]

  weight_there : (r q : Pool) → pool_eq r q ≡ true → weight q (some (some r)) ≡ 1
  weight_there r q t = rw t refl

  weight_elsewhere : (r q : Pool) → pool_eq r q ≡ false → weight q (some (some r)) ≡ 0
  weight_elsewhere r q f = rw f refl

  -- A connection takes a place.
  pub gained :
      (p p' : Pools) (r : Pool) (n : ℕ) (before : Option Lease)
      → ((q : Pool) → weight q before ≡ 0)
      → held_of p r ≡ some n
      → ((q : Pool) → held_of p' q ≡ (if pool_eq r q then some (n + 1) else held_of p q))
      → ltb n (size_of tcp_size tls_size r) ≡ true
      → Shifted tcp_size tls_size p p' before (some (some r)) × Lasting p p'
  gained p p' r n before nowhere known is room =
      changed p p' r n (n + 1) before (some (some r)) known is
        (λ q t. omega (arith, nowhere q, weight_there r q t))
        (λ q f. nowhere q ∙ sym (weight_elsewhere r q f)) (λ le. ground (arith, room))

  -- A connection gives its place back.
  pub lost :
      (p p' : Pools) (r : Pool) (n : ℕ) (after : Option Lease)
      → ((q : Pool) → weight q after ≡ 0)
      → held_of p r ≡ some (suc n)
      → ((q : Pool) → held_of p' q ≡ (if pool_eq r q then some n else held_of p q))
      → Shifted tcp_size tls_size p p' (some (some r)) after × Lasting p p'
  lost p p' r n after nowhere known is =
      changed p p' r (suc n) n (some (some r)) after known is
        (λ q t. omega (arith, nowhere q, weight_there r q t))
        (λ q f. weight_elsewhere r q f ∙ sym (nowhere q)) (λ le. omega (arith, le))
