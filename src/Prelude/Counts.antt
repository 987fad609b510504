-- ===== src/Prelude/Counts.antt =====
-- How many entries of a list, or of a map, pass a test.
use Prim.Native.Nat.{ℕ, ◌+◌, ◌<◌}
use mathlib.Core.Path.{◌≡◌, refl, sym, ap, subst}
use mathlib.Core.Bool.{Bool, false}
use mathlib.Core.Logic.{inl, inr}
use mathlib.Core.Option.{none, some}
use mathlib.Core.List.{List, [], ◌∷◌, ◌++◌}
use native.Mathlib.Omega.{arith}
use cotten_router.Prelude.Tests.{Eq, if◌then◌else◌, Bool-cases, nat_eq, ◌==◌}
use cotten_router.Prelude.Lists.{All}
use cotten_router.Prelude.Maps.{Assoc, lookup, insert, erase, Distinct}

module _ {ℓ} {A : Type ℓ} (p : A → Bool) where
  abbrev pub count : List A → ℕ
  count [] = 0
  count (x ∷ xs) = (if p x then 1 else 0) + count xs

  pub count-append : (xs ys : List A) → count (xs ++ ys) ≡ count xs + count ys
  count-append [] ys = omega arith
  count-append (x ∷ xs) ys = omega (arith, count-append xs ys)

module _ {ℓ κ} {K : Type ℓ} {V : Type κ} ⦃e : Eq K⦄ where
  -- Deleting an absent key changes nothing.
  pub erase_absent : (k : K) (m : Assoc K V) → lookup k m ≡ none → erase k m ≡ m
  unfolding lookup erase
  erase_absent k [] h = refl
  erase_absent k ((j, v) ∷ m) h = elim (Bool-cases (e.beq j k)) [
    | inl t ↦ absurd (let bad : some v ≡ none = rw t at h in cc)
    | inr f ↦ rw f (ap (◌∷◌ (j, v)) (erase_absent k m (rw f at h)))
  ]

  pub count-erase :
      (p : K × V → Bool) (k : K) (v : V) (m : Assoc K V)
      → Distinct m
      → lookup k m ≡ some v
      → count p m ≡ count p (erase k m) + (if p (k, v) then 1 else 0)
  unfolding lookup erase
  count-erase p k v [] d h = absurd (cc h)
  count-erase p k v ((j, w) ∷ m) d h = elim (Bool-cases (e.beq j k)) [
    | inl t ↦
        let key : j ≡ k = (e.beq_iff j k).0 t in
        let value : w ≡ v = let found : some w ≡ some v = rw t at h in cc in
        let gone : erase k m ≡ m = erase_absent k m (subst (λ i. lookup i m ≡ none) key d.0) in
        rw (t, gone)
          (subst (λ x. (if p x then 1 else 0) + count p m ≡ count p m + (if p (k, v) then 1 else 0))
            (λ i. (sym key i, sym value i)) (omega arith))
    | inr f ↦ rw f (omega (arith, count-erase p k v m d.1 (rw f at h)))
  ]

  pub count-insert_new :
      (p : K × V → Bool) (k : K) (v : V) (m : Assoc K V)
      → lookup k m ≡ none
      → count p (insert k v m) ≡ count p m + (if p (k, v) then 1 else 0)
  unfolding lookup insert
  count-insert_new p k v [] h = omega arith
  count-insert_new p k v ((j, w) ∷ m) h = elim (Bool-cases (e.beq j k)) [
    | inl t ↦ absurd (let bad : some w ≡ none = rw t at h in cc)
    | inr f ↦ rw f (omega (arith, count-insert_new p k v m (rw f at h)))
  ]

  -- A property of every entry.
  pub insert-All {μ} :
      (P : K × V → Type μ) (k : K) (v : V) (m : Assoc K V)
      → All P m
      → P (k, v)
      → All P (insert k v m)
  unfolding insert
  insert-All P k v [] a h = (h, tt)
  insert-All P k v ((j, w) ∷ m) a h = elim (Bool-cases (e.beq j k)) [
    | inl t ↦ rw t (h, a.1)
    | inr f ↦ rw f (a.0, insert-All P k v m a.1 h)
  ]

  pub erase-All {μ} : (P : K × V → Type μ) (k : K) (m : Assoc K V) → All P m → All P (erase k m)
  unfolding erase
  erase-All P k [] a = tt
  erase-All P k ((j, w) ∷ m) a = elim (Bool-cases (e.beq j k)) [
    | inl t ↦ rw t (erase-All P k m a.1)
    | inr f ↦ rw f (a.0, erase-All P k m a.1)
  ]

  pub lookup-All {μ} :
      (P : K × V → Type μ) (k : K) (v : V) (m : Assoc K V)
      → All P m
      → lookup k m ≡ some v
      → P (k, v)
  unfolding lookup
  lookup-All P k v [] a h = absurd (cc h)
  lookup-All P k v ((j, w) ∷ m) a h = elim (Bool-cases (e.beq j k)) [
    | inl t ↦
        let key : j ≡ k = (e.beq_iff j k).0 t in
        let value : w ≡ v = let found : some w ≡ some v = rw t at h in cc in
        subst P (λ i. (key i, value i)) a.0
    | inr f ↦ lookup-All P k v m a.1 (rw f at h)
  ]

pub All-imp {ℓ κ μ} :
    {A : Type ℓ} {P : A → Type κ} {Q : A → Type μ} (xs : List A)
    → ((x : A) → P x → Q x)
    → All P xs
    → All Q xs
All-imp [] f a = tt
All-imp (x ∷ xs) f a = (f x a.0, All-imp xs f a.1)

-- No key reaches the bound, so the bound is not a key.
pub lookup_bound {κ} :
    {V : Type κ} (n : ℕ) (m : Assoc ℕ V) → All (λ (e : ℕ × V). e.0 < n) m → lookup n m ≡ none
unfolding lookup
lookup_bound n [] a = refl
lookup_bound n ((k, v) ∷ m) a =
    let other : (k == n) ≡ false = ground (arith, a.0) in rw other (lookup_bound n m a.1)
