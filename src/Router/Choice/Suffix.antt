-- ===== src/Router/Choice/Suffix.antt =====
-- The suffix test without a concatenation against the suffix rule of domain names.
use mathlib.Core.Path.{ap₂}
use cotten_router.Prelude.{
  suc, ◌+◌, ◌-◌, ◌≤◌, ◌≡◌, refl, sym, ap, ◌∙◌, ◌↔◌, ◌⊎◌, inl, inr, true, false, ◌∷◌, ◌++◌, arith,
  Bool-cases, Bytes, bytes_eq, bytes_eq_iff, length, take, drop, length-append, take-append-drop,
  drop-length-append, drop-drop, get_or, drop-get_or, get_or-length-append,
}
use cotten_router.Router.Choice.{matches_domain_suffix}

-- The name is the suffix, or ends in a dot and the suffix.
abbrev pub IsWithin : Bytes → Bytes → Type 0
IsWithin name suffix = (name ≡ suffix) ⊎ ((prefix : Bytes) × (name ≡ prefix ++ b'.' ∷ suffix))

IsWithin-matches :
    (name suffix : Bytes) → IsWithin name suffix → matches_domain_suffix name suffix ≡ true
unfolding matches_domain_suffix
IsWithin-matches name suffix (inl e) = rw ((bytes_eq_iff name suffix).1 e) refl
IsWithin-matches name suffix (inr (p, e)) =
    let n : length name - length suffix - 1 ≡ length p =
      omega (arith, ap length e, length-append p (b'.' ∷ suffix)) in
    let m : length name - length suffix ≡ length p + 1 =
      omega (arith, ap length e, length-append p (b'.' ∷ suffix)) in
    let other : bytes_eq name suffix ≡ false =
      ground (arith, bytes_eq_iff name suffix, ap length e, length-append p (b'.' ∷ suffix)) in
    let dot : get_or name (length p) 0 ≡ b'.' = rw e (get_or-length-append p suffix b'.' 0) in
    let tail : drop (length p + 1) name ≡ suffix =
      sym (drop-drop (length p) 1 name)
      ∙ ap (λ t. drop 1 (drop (length p) t)) e
      ∙ ap (drop 1) (drop-length-append p (b'.' ∷ suffix)) in
    rw (other, n, m, dot, tail, (bytes_eq_iff suffix suffix).1 refl) (ground arith)

matches-IsWithin :
    (name suffix : Bytes) → matches_domain_suffix name suffix ≡ true → IsWithin name suffix
unfolding matches_domain_suffix
matches-IsWithin name suffix h = elim (Bool-cases (bytes_eq name suffix)) [
  | inl same ↦ inl ((bytes_eq_iff name suffix).0 same)
  | inr other ↦
      let n = length name - length suffix - 1 in
      let longer : length suffix + 1 ≤ length name = ground arith in
      let dot : get_or name n 0 ≡ b'.' = ground arith in
      let tail : drop (suc n) name ≡ suffix =
        let at : suc n ≡ length name - length suffix = omega arith in
        rw at ((bytes_eq_iff _ suffix).0 (ground arith)) in
      inr (
        take n name,
        sym (take-append-drop n name)
            ∙ ap (◌++◌ (take n name)) (drop-get_or n name 0 (omega arith) ∙ ap₂ ◌∷◌ dot tail),
      )
]

-- The test passes exactly for the suffix itself and for names below it.
pub matches_iff :
    (name suffix : Bytes) → (matches_domain_suffix name suffix ≡ true) ↔ IsWithin name suffix
matches_iff name suffix = (matches-IsWithin name suffix, IsWithin-matches name suffix)
