-- ===== src/Prelude/Results.antt =====
-- What a Go function that can fail returns: a value, an error, or a run-time panic (an index or a
-- slice bound out of range). `no_fuel` marks a loop that has used up the rounds it was given.
use Prim.Native.Nat.{ℕ, suc, ◌<◌, ◌+◌, ◌-◌, ◌*◌, ◌≤◌}
use mathlib.Core.Path.{◌≡◌, refl, sym, ap, ◌∙◌}
use mathlib.Core.Bool.{Bool, true, false, ◌&&◌}
use mathlib.Core.List.{◌∷◌, ◌++◌}
use mathlib.Core.Option.{Option, none, some}
use native.Mathlib.Omega.{arith}
use cotten_router.Prelude.Lists.{
  length, get_elem?, take, drop, get_elem?-drop, drop-drop, take-length-append, get_or, drop-get_or,
}
use cotten_router.Prelude.Tests.{Bytes, leb, le→leb, if◌then◌else◌}

pub data Result {ℓ} (E : Type 0) (A : Type ℓ) : Type ℓ where
  ok : A → Result E A
  err : E → Result E A
  panic : Result E A
  no_fuel : Result E A

module _ {E : Type 0} where
  infixl 5 ◌>>=◌ ◌>>◌
  abbrev pub ◌>>=◌ {ℓ κ} : {A : Type ℓ} {B : Type κ} → Result E A → (A → Result E B) → Result E B
  ok a >>= f = f a
  err e >>= f = err e
  panic >>= f = panic
  no_fuel >>= f = no_fuel

  abbrev pub ◌>>◌ {ℓ} : {B : Type ℓ} → Result E (Unit {0}) → Result E B → Result E B
  m >> k = m >>= λ _. k

  -- `if b { return e }`
  abbrev pub reject : Bool → E → Result E (Unit {0})
  reject b e = if b then err e else ok tt

  abbrev pub or_err {ℓ} : {A : Type ℓ} → Option A → E → Result E A
  or_err none e = err e
  or_err (some a) e = ok a

  -- What a chain that has succeeded has gone through.
  pub >>=-ok {ℓ κ} :
      {A : Type ℓ} {B : Type κ} (m : Result E A) (f : A → Result E B) {b : B}
      → (m >>= f) ≡ ok b
      → (a : A) × (m ≡ ok a) × (f a ≡ ok b)
  >>=-ok (ok a) f h = (a, refl, h)
  >>=-ok (err e) f h = absurd (cc h)
  >>=-ok panic f h = absurd (cc h)
  >>=-ok no_fuel f h = absurd (cc h)

  pub ok-inj {ℓ} : {A : Type ℓ} {x y : A} → ◌≡◌ {A = Result E A} (ok x) (ok y) → x ≡ y
  ok-inj h = cc

  pub reject-ok : (b : Bool) (e : E) {t : Unit {0}} → reject b e ≡ ok t → b ≡ false
  reject-ok true e h = absurd (cc h)
  reject-ok false e h = refl

  pub or_err-ok {ℓ} : {A : Type ℓ} (o : Option A) (e : E) {a : A} → or_err o e ≡ ok a → o ≡ some a
  or_err-ok none e h = absurd (cc h)
  or_err-ok (some b) e h = cc

  -- p[i]
  unfoldable pub byte_at : Bytes → ℕ → Result E ℕ
  byte_at p i = elim (get_elem? p i) [ none ↦ panic | some b ↦ ok b ]

  -- p[i:j]
  unfoldable pub slice : Bytes → ℕ → ℕ → Result E Bytes
  slice p i j = if leb i j && leb j (length p) then ok (take (j - i) (drop i p)) else panic

  -- binary.BigEndian.Uint16(p[i:i+2])
  unfoldable pub u16_at : Bytes → ℕ → Result E ℕ
  u16_at p i = do hi ← byte_at p i; lo ← byte_at p (i + 1); ok (hi * 256 + lo)

  -- What a read finds is decided by the bytes from its offset on.
  pub byte_at-drop : (p : Bytes) (i b : ℕ) (r : Bytes) → drop i p ≡ b ∷ r → byte_at p i ≡ ok b
  unfolding byte_at
  byte_at-drop p i b r h = rw (get_elem?-drop i p, h, byte_at) refl

  pub u16_at-drop :
      (p : Bytes) (i a b : ℕ) (r : Bytes) → drop i p ≡ a ∷ b ∷ r → u16_at p i ≡ ok (a * 256 + b)
  unfolding u16_at
  u16_at-drop p i a b r h =
      rw
        (
          byte_at-drop p i a (b ∷ r) h,
          byte_at-drop p (i + 1) b r (sym (drop-drop i 1 p) ∙ ap (drop 1) h),
        )
        refl

  pub slice-drop :
      (p : Bytes) (i n : ℕ) (l r : Bytes)
      → drop i p ≡ l ++ r
      → n ≡ length l
      → i ≤ length p
      → i + n ≤ length p
      → slice p i (i + n) ≡ ok l
  unfolding slice
  slice-drop p i n l r h e lo hi =
      rw (le→leb i (i + n) (omega arith), le→leb (i + n) (length p) hi)
        (let sub : i + n - i ≡ length l = omega arith in
          rw (sub, h) (ap ok (take-length-append l r)))

  -- A read inside the bytes finds something.
  pub byte_at-ok : (p : Bytes) (i : ℕ) → i < length p → (b : ℕ) × (byte_at p i ≡ ok b)
  byte_at-ok p i h =
      (get_or p i 0, byte_at-drop p i (get_or p i 0) (drop (suc i) p) (drop-get_or i p 0 h))

  pub u16_at-ok : (p : Bytes) (i : ℕ) → i + 1 < length p → (n : ℕ) × (u16_at p i ≡ ok n)
  unfolding u16_at
  u16_at-ok p i h =
      let (a, e) = byte_at-ok p i (omega arith) in
      let (b, f) = byte_at-ok p (i + 1) h in (a * 256 + b, rw (e, f) refl)

  pub slice-ok : (p : Bytes) (i j : ℕ) → i ≤ j → j ≤ length p → (s : Bytes) × (slice p i j ≡ ok s)
  unfolding slice
  slice-ok p i j h k = (take (j - i) (drop i p), rw (le→leb i j h, le→leb j (length p) k) refl)
