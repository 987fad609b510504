-- ===== src/Config/Slipgate/Decimal.antt =====
-- The text that %d writes for the port of a tunnel.
use cotten_router.Prelude.{
  ℕ, zero, suc, ◌+◌, ◌-◌, ◌*◌, ◌/◌, ◌%◌, ◌≤◌, ◌<◌, ◌≡◌, refl, [], ◌∷◌, ◌++◌, arith, ltb, Bytes, All,
  get_or, Bytes_eq, if_cases, nat_eq,
}
use cotten_router.Config.Slipgate.{digits}

-- What a text of decimal digits says, behind digits that say `front`.
abbrev pub decimal : ℕ → Bytes → ℕ
decimal front [] = front
decimal front (b ∷ s) = decimal (10 * front + (b - 48)) s

-- The decimal text of a positive number: it says the number, it holds digits only, and it does not begin
-- with a zero.
pub record Decimal (n : ℕ) (text : Bytes) : Type 0 where
  pub says : decimal 0 text ≡ n
  pub digits_only : All (λ b. (48 ≤ b) × (b ≤ 57)) text
  pub leading : 49 ≤ get_or text 0 0

abbrev pub ten_to : ℕ → ℕ
ten_to zero = 1
ten_to (suc n) = 10 * ten_to n

decimal-append :
    (front : ℕ) (s : Bytes) (b : ℕ)
    → decimal front (s ++ (b ∷ [])) ≡ 10 * decimal front s + (b - 48)
decimal-append front [] b = refl
decimal-append front (c ∷ s) b = decimal-append (10 * front + (c - 48)) s b

says_lem : (fuel n : ℕ) → n < ten_to fuel → decimal 0 (digits fuel n) ≡ n
unfolding digits
says_lem zero n h = omega (arith, h)
says_lem (suc fuel) n h =
    if_cases (λ s. decimal 0 s ≡ n) (ltb n 10) _ _ (λ small. omega arith)
      (λ big.
        let rest = says_lem fuel (n / 10) (omega (arith, h)) in
        omega (arith, rest, decimal-append 0 (digits fuel (n / 10)) (48 + n % 10)))

All-append_one :
    (s : Bytes) (b : ℕ)
    → All (λ b. (48 ≤ b) × (b ≤ 57)) s
    → (48 ≤ b) × (b ≤ 57)
    → All (λ b. (48 ≤ b) × (b ≤ 57)) (s ++ (b ∷ []))
All-append_one [] b a h = (h, tt)
All-append_one (c ∷ s) b a h = (a.0, All-append_one s b a.1 h)

digits_only_lem : (fuel n : ℕ) → All (λ b. (48 ≤ b) × (b ≤ 57)) (digits fuel n)
unfolding digits
digits_only_lem zero n = tt
digits_only_lem (suc fuel) n =
    if_cases (λ s. All (λ b. (48 ≤ b) × (b ≤ 57)) s) (ltb n 10) _ _
      (λ small. ((omega arith, ground (arith, small)), tt))
      (λ big.
        All-append_one (digits fuel (n / 10)) (48 + n % 10) (digits_only_lem fuel (n / 10))
          (omega arith, omega arith))

leading-append : (s t : Bytes) → 49 ≤ get_or s 0 0 → 49 ≤ get_or (s ++ t) 0 0
leading-append [] t h = absurd (omega (arith, h))
leading-append (b ∷ s) t h = h

leading_lem : (fuel n : ℕ) → 1 ≤ n → n < ten_to fuel → 49 ≤ get_or (digits fuel n) 0 0
unfolding digits
leading_lem zero n positive h = absurd (omega (arith, h))
leading_lem (suc fuel) n positive h =
    if_cases (λ s. 49 ≤ get_or s 0 0) (ltb n 10) _ _ (λ small. omega (arith, positive))
      (λ big.
        leading-append (digits fuel (n / 10)) _
          (leading_lem fuel (n / 10) (ground (arith, big)) (omega (arith, h))))

pub digits-Decimal : (n : ℕ) → 1 ≤ n → n ≤ 65535 → Decimal n (digits 20 n)
digits-Decimal n positive small = record {
  says = says_lem 20 n (omega (arith, small));
  digits_only = digits_only_lem 20 n;
  leading = leading_lem 20 n positive (omega (arith, small));
}
