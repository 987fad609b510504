-- ===== src/Router/Pools/Balance.antt =====
-- What a step does to the places and the registered connections, and that the books stay balanced.
use cotten_router.Prelude.{
  ℕ, ◌+◌, ◌≤◌, ◌≡◌, refl, ap, subst, ◌∙◌, inl, inr, true, false, Option, none, some, [], ◌∷◌, arith,
  ◌==◌, if◌then◌else◌, Bool-cases, Option-cases, All, Assoc, lookup, erase, In, Distinct,
  insert-Distinct, erase-Distinct, lookup-erase_self, Bytes_eq, nat_eq, count, erase_absent,
  count-erase, count-insert_new, insert-All, lookup-All, All-imp,
}
use cotten_router.Router.Pools.{Pools}
use cotten_router.Router.Pools.Leases.{
  Pool, pool_eq, held_of, Lease, State, put_lease, moved, is_in, size_of, Known, Balanced,
}

-- Whether the connection has a place in the pool, as a number.
abbrev pub weight : Pool → Option Lease → ℕ
weight q none = 0
weight q (some none) = 0
weight q (some (some r)) = if pool_eq r q then 1 else 0

-- A lease that lasts beyond the step.
abbrev pub Registered : Pools → ℕ → Option Lease → Type 0
Registered p conn none = Unit {0}
Registered p conn (some l) = (lookup conn p.connections ≡ some tt) × Known p l

-- No pool is lost.
abbrev pub Lasting : Pools → Pools → Type 0
Lasting p p' = (q : Pool) (n : ℕ) → held_of p q ≡ some n → (n' : ℕ) × (held_of p' q ≡ some n')

module _ (tcp_size tls_size : ℕ) where
  -- The places that are taken change as the lease does, and never beyond the size.
  abbrev pub Shifted : Pools → Pools → Option Lease → Option Lease → Type 0
  Shifted p p' before after =
      (q : Pool) (n' : ℕ)
      → held_of p' q ≡ some n'
      → (n : ℕ) × (held_of p q ≡ some n)
        × (n' + weight q before ≡ n + weight q after)
        × (n ≤ size_of tcp_size tls_size q → n' ≤ size_of tcp_size tls_size q)

  pub record Effect (p p' : Pools) (conn : ℕ) (before after : Option Lease) : Type 0 where
    pub places : Shifted p p' before after
    pub pools_last : Lasting p p'
    pub others :
        (j : ℕ)
        → (conn == j) ≡ false
        → lookup j p.connections ≡ some tt
        → lookup j p'.connections ≡ some tt
    pub own : Registered p conn before → Registered p' conn after
    pub done_lasts : p.is_done ≡ true → p'.is_done ≡ true
    pub closed_lasts : (j : ℕ) → In j p.closed → In j p'.closed
    -- Only a connection that was served already is served on once the server closes.
    pub none_admitted : p.is_done ≡ true → before ≡ none → after ≡ none

  pub count-lease :
      (q : Pool) (conn : ℕ) (m : Assoc ℕ Lease)
      → Distinct m
      → count (is_in q) m ≡ count (is_in q) (erase conn m) + weight q (lookup conn m)
  count-lease q conn m d = elim (Option-cases (lookup conn m)) [
    | inl e ↦ rw (e, erase_absent conn m e) (omega arith)
    | inr (l, e) ↦
        rw e (
          count-erase (is_in q) conn l m d e
          ∙ ap (λ k. count (is_in q) (erase conn m) + k) (same l))
  ]
    where
      same : (l : Lease) → (if is_in q (conn, l) then 1 else 0) ≡ weight q (some l)
      same none = refl
      same (some r) = refl

  count-put_lease :
      (q : Pool) (conn : ℕ) (after : Option Lease) (m : Assoc ℕ Lease)
      → count (is_in q) (put_lease conn after m) ≡ count (is_in q) (erase conn m) + weight q after
  count-put_lease q conn none m = omega arith
  count-put_lease q conn (some none) m =
      count-insert_new (is_in q) conn none (erase conn m) (lookup-erase_self conn m)
  count-put_lease q conn (some (some r)) m =
      count-insert_new (is_in q) conn (some r) (erase conn m) (lookup-erase_self conn m)

all-erase :
    (P : ℕ × Lease → Type 0) (conn : ℕ) (m : Assoc ℕ Lease)
    → All (λ (e : ℕ × Lease). (conn == e.0) ≡ false → P e) m
    → All P (erase conn m)
unfolding erase
all-erase P conn [] a = tt
all-erase P conn ((j, l) ∷ m) a = elim (Bool-cases (j == conn)) [
  | inl t ↦ rw t (all-erase P conn m a.1)
  | inr f ↦ rw f (a.0 (ground (arith, f)), all-erase P conn m a.1)
]

-- What holds of every entry but the connection's, and of the connection's where it has a lease, holds of
-- the leases after the step.
put_lease-All :
    (P : ℕ × Lease → Type 0) (conn : ℕ) (after : Option Lease) (m : Assoc ℕ Lease)
    → All (λ (e : ℕ × Lease). (conn == e.0) ≡ false → P e) m
    → ((l : Lease) → after ≡ some l → P (conn, l))
    → All P (put_lease conn after m)
put_lease-All P conn none m a own = all-erase P conn m a
put_lease-All P conn (some l) m a own =
    insert-All P conn l (erase conn m) (all-erase P conn m a) (own l refl)

put_lease-Distinct :
    (conn : ℕ) (after : Option Lease) (m : Assoc ℕ Lease)
    → Distinct m
    → Distinct (put_lease conn after m)
put_lease-Distinct conn none m d = erase-Distinct conn m d
put_lease-Distinct conn (some l) m d =
    insert-Distinct conn l (erase conn m) (erase-Distinct conn m d)

Effect-Known :
    (tcp_size tls_size : ℕ) (p p' : Pools) (conn : ℕ) (before after : Option Lease) (l : Lease)
    → Effect tcp_size tls_size p p' conn before after
    → Known p l
    → Known p' l
Effect-Known a b p p' conn before after none e k = tt
Effect-Known a b p p' conn before after (some q) e k = e.pools_last q k.0 k.1

module _ (tcp_size tls_size : ℕ) where
  Balanced-Registered :
      (s : State) (conn : ℕ) (before : Option Lease)
      → Balanced tcp_size tls_size s
      → lookup conn s.leases ≡ before
      → Registered s.pools conn before
  Balanced-Registered s conn none v e = tt
  Balanced-Registered s conn (some l) v e = (
    lookup-All (λ (e : ℕ × Lease). lookup e.0 s.pools.connections ≡ some tt) conn l s.leases
        v.tracked e,
    lookup-All (λ (e : ℕ × Lease). Known s.pools e.1) conn l s.leases v.known e,
  )

  Registered-after :
      (p : Pools) (conn : ℕ) (after : Option Lease) (l : Lease)
      → Registered p conn after
      → after ≡ some l
      → (lookup conn p.connections ≡ some tt) × Known p l
  Registered-after p conn after l r e = subst (Registered p conn) e r

  -- A step with such an effect keeps the books balanced.
  pub moved-Balanced :
      (s : State) (conn : ℕ) (before after : Option Lease) (p' : Pools)
      → Balanced tcp_size tls_size s
      → lookup conn s.leases ≡ before
      → Effect tcp_size tls_size s.pools p' conn before after
      → Balanced tcp_size tls_size (moved s conn after p')
  moved-Balanced s conn before after p' v found e =
      let own = e.own (Balanced-Registered s conn before v found) in
      record {
        pools = λ q n' h.
            let (n, was, moved, room) = e.places q n' h in
            let balanced = v.pools q n was in
            let base = count-lease tcp_size tls_size q conn s.leases v.distinct in
            let same : weight q (lookup conn s.leases) ≡ weight q before = ap (weight q) found in
            (
              omega (
                arith,
                count-put_lease tcp_size tls_size q conn after s.leases,
                base,
                same,
                moved,
                balanced.0,
              ),
              room balanced.1,
            );
        known =
            put_lease-All _ conn after s.leases
              (All-imp s.leases
                (λ x k other. Effect-Known tcp_size tls_size s.pools p' conn before after x.1 e k)
                v.known)
              (λ l h. (Registered-after p' conn after l own h).1);
        tracked =
            put_lease-All _ conn after s.leases
              (All-imp s.leases (λ x k other. e.others x.0 other k) v.tracked)
              (λ l h. (Registered-after p' conn after l own h).0);
        distinct = put_lease-Distinct conn after s.leases v.distinct;
        shut = λ w. e.done_lasts (v.shut w);
        swept = λ w.
            put_lease-All _ conn after s.leases
              (All-imp s.leases (λ x k other. e.closed_lasts x.0 k) (v.swept w))
              (λ l h. e.closed_lasts conn (served w l h));
      }
    where
      served : s.swept ≡ true → (l : Lease) → after ≡ some l → In conn s.pools.closed
      served w l h = elim (Option-cases before) [
        | inl new ↦ absurd (let none_left = e.none_admitted (v.shut w) new in cc)
        | inr (m, old) ↦
            lookup-All (λ (e : ℕ × Lease). In e.0 s.pools.closed) conn m s.leases (v.swept w)
              (found ∙ old)
      ]
