-- ===== src/Router/Backend/Expiry.antt =====
-- How a tick of expirePending splits the pending map.
use cotten_router.Prelude.{
  ℕ, ◌+◌, ◌≤◌, ◌≡◌, refl, inl, inr, Bool, none, some, List, [], ◌∷◌, ◌++◌, arith, ltb, ◌==◌,
  Bool-cases, length, All, Assoc, lookup, Distinct, if_cases, nat_eq, count,
}
use cotten_router.Router.Backend.{expired, unexpired, PendingQuery}

-- A tick splits the pending map in what it leaves and what it deletes.
pub unexpired-All :
    (P : ℕ × PendingQuery → Type 0) (now : ℕ) (m : Assoc ℕ PendingQuery)
    → All P m
    → All P (unexpired now m) × All P (expired now m)
unfolding unexpired expired
unexpired-All P now [] a = (tt, tt)
unexpired-All P now ((id, q) ∷ m) a =
    let rest = unexpired-All P now m a.1 in
    elim (Bool-cases (ltb now q.expires_at)) [
      | inl kept ↦ rw kept ((a.0, rest.0), rest.1)
      | inr gone ↦ rw gone (rest.0, (a.0, rest.1))
    ]

pub length-unexpired-le : (now : ℕ) (m : Assoc ℕ PendingQuery) → length (unexpired now m) ≤ length m
unfolding unexpired
length-unexpired-le now [] = omega arith
length-unexpired-le now ((id, q) ∷ m) = ground (arith, length-unexpired-le now m)

pub count-unexpired :
    (p : ℕ × PendingQuery → Bool) (now : ℕ) (m : Assoc ℕ PendingQuery)
    → count p (expired now m) + count p (unexpired now m) ≡ count p m
unfolding unexpired expired
count-unexpired p now [] = omega arith
count-unexpired p now ((id, q) ∷ m) = elim (Bool-cases (ltb now q.expires_at)) [
  | inl kept ↦ rw kept (omega (arith, count-unexpired p now m))
  | inr gone ↦ rw gone (omega (arith, count-unexpired p now m))
]

pub unexpired_absent :
    (k now : ℕ) (m : Assoc ℕ PendingQuery) → lookup k m ≡ none → lookup k (unexpired now m) ≡ none
unfolding lookup unexpired
unexpired_absent k now [] h = refl
unexpired_absent k now ((id, q) ∷ m) h = elim (Bool-cases (id == k)) [
  | inl t ↦ absurd (let bad : some q ≡ none = rw t at h in cc)
  | inr f ↦
      let rest = unexpired_absent k now m (rw f at h) in
      if_cases (λ (l : Assoc ℕ PendingQuery). lookup k l ≡ none) (ltb now q.expires_at) _ _
        (λ kept. rw f rest) (λ gone. rest)
]

pub unexpired-Distinct :
    (now : ℕ) (m : Assoc ℕ PendingQuery) → Distinct m → Distinct (unexpired now m)
unfolding unexpired
unexpired-Distinct now [] d = tt
unexpired-Distinct now ((id, q) ∷ m) d = elim (Bool-cases (ltb now q.expires_at)) [
  | inl kept ↦ rw kept (unexpired_absent id now m d.0, unexpired-Distinct now m d.1)
  | inr gone ↦ rw gone (unexpired-Distinct now m d.1)
]

pub All-append {κ} :
    {A : Type 0} (P : A → Type κ) (xs ys : List A) → All P xs → All P ys → All P (xs ++ ys)
All-append P [] ys a b = b
All-append P (x ∷ xs) ys a b = (a.0, All-append P xs ys a.1 b)
