-- ===== src/Prelude/Maps.antt =====
-- A Go map: an association list with one entry to a key. The order of the entries is the order in
-- which `range` visits them; Go leaves it open, and so do the lemmas, which hold for every list.
use Prim.Native.Nat.{◌+◌, ◌≤◌, ◌<◌}
use mathlib.Core.Path.{◌≡◌, refl, sym, ap, subst, ◌∙◌}
use mathlib.Core.Bool.{Bool, true, false}
use mathlib.Core.Logic.{◌≢◌, inl, inr}
use mathlib.Core.Option.{Option, none, some}
use mathlib.Core.List.{List, [], ◌∷◌}
use native.Mathlib.Omega.{arith}
use cotten_router.Prelude.Tests.{Eq, if◌then◌else◌, Bool-cases}
use cotten_router.Prelude.Lists.{length, In}

abbrev pub Assoc {ℓ κ} : Type ℓ → Type κ → Type (ℓ ⊔ κ)
Assoc K V = List (K × V)

module _ {ℓ κ} {K : Type ℓ} {V : Type κ} ⦃e : Eq K⦄ where
  unfoldable pub lookup : K → Assoc K V → Option V
  lookup k [] = none
  lookup k ((j, v) ∷ m) = if e.beq j k then some v else lookup k m

  -- m[k] = v
  unfoldable pub insert : K → V → Assoc K V → Assoc K V
  insert k v [] = (k, v) ∷ []
  insert k v ((j, w) ∷ m) = if e.beq j k then (k, v) ∷ m else (j, w) ∷ insert k v m

  -- delete(m, k)
  unfoldable pub erase : K → Assoc K V → Assoc K V
  erase k [] = []
  erase k ((j, v) ∷ m) = let rest = erase k m in if e.beq j k then rest else (j, v) ∷ rest

  pub lookup-insert :
      (k j : K) (v : V) (m : Assoc K V)
      → lookup j (insert k v m) ≡ (if e.beq k j then some v else lookup j m)
  unfolding lookup insert
  lookup-insert k j v [] = refl
  lookup-insert k j v ((i, w) ∷ m) =
      ground (arith, e.beq_iff k j, e.beq_iff i k, e.beq_iff i j, lookup-insert k j v m)

  pub lookup-erase :
      (k j : K) (m : Assoc K V) → lookup j (erase k m) ≡ (if e.beq k j then none else lookup j m)
  unfolding lookup erase
  lookup-erase k j [] = ground arith
  lookup-erase k j ((i, w) ∷ m) =
      ground (arith, e.beq_iff k j, e.beq_iff i k, e.beq_iff i j, lookup-erase k j m)

  pub length-erase-le : (k : K) (m : Assoc K V) → length (erase k m) ≤ length m
  unfolding erase
  length-erase-le k [] = omega arith
  length-erase-le k ((j, v) ∷ m) = ground (arith, length-erase-le k m)

  pub length-erase-lt :
      (k : K) (v : V) (m : Assoc K V) → lookup k m ≡ some v → length (erase k m) < length m
  unfolding lookup erase
  length-erase-lt k v [] h = ground arith
  length-erase-lt k v ((j, w) ∷ m) h = ground (arith, length-erase-lt k v m, length-erase-le k m)

  pub length-insert_new :
      (k : K) (v : V) (m : Assoc K V) → lookup k m ≡ none → length (insert k v m) ≡ length m + 1
  unfolding lookup insert
  length-insert_new k v [] h = omega arith
  length-insert_new k v ((j, w) ∷ m) h = ground (arith, length-insert_new k v m)

  pub length-insert_old :
      (k : K) (v w : V) (m : Assoc K V) → lookup k m ≡ some w → length (insert k v m) ≡ length m
  unfolding lookup insert
  length-insert_old k v w [] h = ground arith
  length-insert_old k v w ((j, u) ∷ m) h = ground (arith, length-insert_old k v w m)

module _ {ℓ κ μ} {K : Type ℓ} {V : Type κ} ⦃e : Eq K⦄ (P : V → Type μ) where
  -- A property of every value of a map.
  abbrev pub AllValues : Assoc K V → Type μ
  AllValues [] = Unit
  AllValues ((k, v) ∷ m) = P v × AllValues m

  pub lookup-AllValues : (k : K) (v : V) (m : Assoc K V) → AllValues m → lookup k m ≡ some v → P v
  unfolding lookup
  lookup-AllValues k v [] a h = cc
  lookup-AllValues k v ((j, w) ∷ m) a h = elim (Bool-cases (e.beq j k)) [
    | inl t ↦ let same : w ≡ v = ground arith in subst P same a.0
    | inr f ↦ lookup-AllValues k v m a.1 (rw f at h)
  ]

  pub insert-AllValues :
      (k : K) (v : V) (m : Assoc K V) → AllValues m → P v → AllValues (insert k v m)
  unfolding insert
  insert-AllValues k v [] a h = (h, tt)
  insert-AllValues k v ((j, w) ∷ m) a h = elim (Bool-cases (e.beq j k)) [
    | inl t ↦ rw t (h, a.1)
    | inr f ↦ rw f (a.0, insert-AllValues k v m a.1 h)
  ]

  pub erase-AllValues : (k : K) (m : Assoc K V) → AllValues m → AllValues (erase k m)
  unfolding erase
  erase-AllValues k [] a = tt
  erase-AllValues k ((j, w) ∷ m) a = elim (Bool-cases (e.beq j k)) [
    | inl t ↦ rw t (erase-AllValues k m a.1)
    | inr f ↦ rw f (a.0, erase-AllValues k m a.1)
  ]

module _ {ℓ κ} {K : Type ℓ} {V : Type κ} ⦃e : Eq K⦄ where
  pub lookup-insert_self : (k : K) (v : V) (m : Assoc K V) → lookup k (insert k v m) ≡ some v
  lookup-insert_self k v m = rw (lookup-insert k k v m, (e.beq_iff k k).1 refl) refl

  pub length-insert-le : (k : K) (v : V) (m : Assoc K V) → length (insert k v m) ≤ length m + 1
  unfolding insert
  length-insert-le k v [] = omega arith
  length-insert-le k v ((j, w) ∷ m) = ground (arith, length-insert-le k v m)

module _ {K V : Type 0} ⦃e : Eq K⦄ where
  -- Deleting a key that has an entry makes the map smaller.
  pub length-erase-lt_of_In :
      (k : K) (v : V) (m : Assoc K V) → In (k, v) m → length (erase k m) < length m
  unfolding erase
  length-erase-lt_of_In k v ((j, w) ∷ m) (inl p) =
      let same : e.beq j k ≡ true = (e.beq_iff j k).1 (sym (ap (λ q. q.0) p)) in
      rw same (omega (arith, length-erase-le k m))
  length-erase-lt_of_In k v ((j, w) ∷ m) (inr i) =
      ground (arith, length-erase-lt_of_In k v m i, length-erase-le k m)
  length-erase-lt_of_In k v [] i = absurd i

none_either {κ} : {V : Type κ} (b : Bool) (o : Option V) → o ≡ none → (if b then none else o) ≡ none
none_either true o h = refl
none_either false o h = h

module _ {ℓ κ} {K : Type ℓ} {V : Type κ} ⦃e : Eq K⦄ where
  -- No key has two entries.
  abbrev pub Distinct : Assoc K V → Type κ
  Distinct [] = Unit
  Distinct ((k, v) ∷ m) = (lookup k m ≡ none) × Distinct m

  pub insert-Distinct : (k : K) (v : V) (m : Assoc K V) → Distinct m → Distinct (insert k v m)
  unfolding insert
  insert-Distinct k v [] d = (unfold lookup in refl, tt)
  insert-Distinct k v ((j, w) ∷ m) d = elim (Bool-cases (e.beq j k)) [
    | inl t ↦ rw t (subst (λ i. lookup i m ≡ none) ((e.beq_iff j k).0 t) d.0, d.1)
    | inr f ↦
        let other : e.beq k j ≡ false = ground (arith, e.beq_iff k j, e.beq_iff j k) in
        rw f (lookup-insert k j v m ∙ rw other d.0, insert-Distinct k v m d.1)
  ]

  pub erase-Distinct : (k : K) (m : Assoc K V) → Distinct m → Distinct (erase k m)
  unfolding erase
  erase-Distinct k [] d = tt
  erase-Distinct k ((j, w) ∷ m) d = elim (Bool-cases (e.beq j k)) [
    | inl t ↦ rw t (erase-Distinct k m d.1)
    | inr f ↦
        rw f (lookup-erase k j m ∙ none_either (e.beq k j) (lookup j m) d.0, erase-Distinct k m d.1)
  ]

module _ {K V : Type 0} ⦃e : Eq K⦄ where
  pub In-lookup : (k : K) (v : V) (m : Assoc K V) → Distinct m → In (k, v) m → lookup k m ≡ some v
  unfolding lookup
  In-lookup k v ((j, w) ∷ m) d (inl p) =
      let same : e.beq j k ≡ true = (e.beq_iff j k).1 (sym (ap (λ q. q.0) p)) in
      rw same (ap some (sym (ap (λ q. q.1) p)))
  In-lookup k v ((j, w) ∷ m) d (inr i) = elim (Bool-cases (e.beq j k)) [
    | inl t ↦
        let clash : lookup k m ≡ none = subst (λ n. lookup n m ≡ none) ((e.beq_iff j k).0 t) d.0 in
        let found = In-lookup k v m d.1 i in absurd (cc clash)
    | inr f ↦ rw f (In-lookup k v m d.1 i)
  ]
  In-lookup k v [] d i = absurd i

  pub lookup-In : (k : K) (v : V) (m : Assoc K V) → lookup k m ≡ some v → In (k, v) m
  unfolding lookup
  lookup-In k v [] h = cc
  lookup-In k v ((j, w) ∷ m) h = elim (Bool-cases (e.beq j k)) [
    | inl t ↦
        let value : w ≡ v = ground arith in inl (λ i. (sym ((e.beq_iff j k).0 t) i, sym value i))
    | inr f ↦ inr (lookup-In k v m (rw f at h))
  ]

module _ {ℓ} {K : Type ℓ} ⦃e : Eq K⦄ where
  pub beq-ne : (k j : K) → j ≢ k → e.beq k j ≡ false
  beq-ne k j other = elim (Bool-cases (e.beq k j)) [
    | inl same ↦ absurd (other (sym ((e.beq_iff k j).0 same)))
    | inr ne ↦ ne
  ]

module _ {ℓ κ} {K : Type ℓ} {V : Type κ} ⦃e : Eq K⦄ where
  pub lookup-insert_ne :
      (k j : K) (v : V) (m : Assoc K V) → j ≢ k → lookup j (insert k v m) ≡ lookup j m
  lookup-insert_ne k j v m other = rw (lookup-insert k j v m, beq-ne k j other) refl

  pub lookup-erase_ne : (k j : K) (m : Assoc K V) → j ≢ k → lookup j (erase k m) ≡ lookup j m
  lookup-erase_ne k j m other = rw (lookup-erase k j m, beq-ne k j other) refl

  pub lookup-erase_self : (k : K) (m : Assoc K V) → lookup k (erase k m) ≡ none
  lookup-erase_self k m = rw (lookup-erase k k m, (e.beq_iff k k).1 refl) refl
