-- ===== src/Router/Verify/Edns.antt =====
-- The search for the advertised packet size never reads outside the packet, and ends.
use cotten_router.Prelude.{
  ℕ, zero, suc, ◌+◌, ◌/◌, ◌%◌, ◌≤◌, ◌<◌, ◌≡◌, refl, ap, ◌⊎◌, inl, inr, false, ◌||◌, arith, ltb, leb,
  ◌==◌, Bool-cases, Bytes, length, ok, err, byte_at-ok, u16_at-ok, if_cases, nat_eq,
}
use cotten_router.Router.Verify.{
  Outcome, skip_labels, skip_dns_name, skip_records, find_opt, or_zero, edns_payload_size,
}

module _ (p : Bytes) where
  -- A number, or the early return; no panic and no lack of fuel.
  abbrev Settled : Outcome ℕ → Type 0
  Settled r = ((n : ℕ) × (r ≡ ok n)) ⊎ (r ≡ err tt)

  inside_of :
      (len offset : ℕ)
      → (ltb 63 len || ltb (length p) (offset + 1 + len)) ≡ false
      → offset + 1 + len ≤ length p
  inside_of len offset h = ground (arith, h)

  skip_labels-Settled :
      (fuel offset : ℕ) → 0 < fuel → length p < fuel + offset → Settled (skip_labels p fuel offset)
  unfolding skip_labels
  skip_labels-Settled zero offset none_left enough = absurd (omega arith)
  skip_labels-Settled (suc fuel) offset left enough = elim (Bool-cases (leb (length p) offset)) [
    | inl over ↦ rw over (inr refl)
    | inr inside ↦
        let (len, e) = byte_at-ok {E = Unit {0}} p offset (ground arith) in
        rw (inside, e)
          (if_cases Settled (len == 0) _ _ (λ h. inl (offset + 1, refl))
            (λ h.
              if_cases Settled (len / 64 % 4 == 3) _ _
                (λ h.
                  if_cases Settled (leb (length p) (offset + 1)) _ _ (λ h. inr refl)
                    (λ h. inl (offset + 2, refl)))
                (λ h.
                  if_cases Settled (ltb 63 len || ltb (length p) (offset + 1 + len)) _ _
                    (λ h. inr refl)
                    (λ fits.
                      let within : offset + 1 + len ≤ length p = inside_of len offset fits in
                      skip_labels-Settled fuel (offset + 1 + len) (omega (arith, within, enough))
                        (omega (arith, within, enough))))))
  ]

  skip_dns_name-Settled : (offset : ℕ) → Settled (skip_dns_name p offset)
  unfolding skip_dns_name
  skip_dns_name-Settled offset =
      skip_labels-Settled (suc (length p)) offset (omega arith) (omega arith)

  skip_records-Settled : (n offset : ℕ) → Settled (skip_records p n offset)
  unfolding skip_records
  skip_records-Settled zero offset = inl (offset, refl)
  skip_records-Settled (suc n) offset = elim (skip_dns_name-Settled offset) [
    | inr e ↦ rw e (inr refl)
    | inl (at, e) ↦ rw e (elim (Bool-cases (ltb (length p) (at + 10))) [
      | inl short ↦ rw short (inr refl)
      | inr long ↦
          let (len, f) = u16_at-ok {E = Unit {0}} p (at + 8) (ground arith) in
          rw (long, f) (skip_records-Settled n (at + 10 + len))
    ])
  ]

  find_opt-Settled : (n offset : ℕ) → Settled (find_opt p n offset)
  unfolding find_opt
  find_opt-Settled zero offset = inr refl
  find_opt-Settled (suc n) offset = elim (skip_dns_name-Settled offset) [
    | inr e ↦ rw e (inr refl)
    | inl (at, e) ↦ rw e (elim (Bool-cases (ltb (length p) (at + 10))) [
      | inl short ↦ rw short (inr refl)
      | inr long ↦
          let (type, f) = u16_at-ok {E = Unit {0}} p at (ground arith) in
          let (size, g) = u16_at-ok {E = Unit {0}} p (at + 2) (ground arith) in
          let (len, k) = u16_at-ok {E = Unit {0}} p (at + 8) (ground arith) in
          rw (long, f, g, k)
            (if_cases Settled (type == 41) _ _ (λ h. inl (size, refl))
              (λ h. find_opt-Settled n (at + 10 + len)))
    ])
  ]

  or_zero-ok : (r : Outcome ℕ) → Settled r → (n : ℕ) × (or_zero p r ≡ ok n)
  or_zero-ok r (inl (n, e)) = (n, ap (or_zero p) e)
  or_zero-ok r (inr e) = (0, ap (or_zero p) e)

  -- In any packet with a header, from any offset, the search for the advertised packet size gives a
  -- number: it reads nothing outside the packet, whatever the counts and lengths in it say, and its
  -- loops end.
  pub edns_payload_size_total :
      (offset : ℕ) → 12 ≤ length p → (n : ℕ) × (edns_payload_size p offset ≡ ok n)
  unfolding edns_payload_size
  edns_payload_size_total offset h =
      let (answers, e) = u16_at-ok {E = Unit {0}} p 6 (omega arith) in
      let (authority, f) = u16_at-ok {E = Unit {0}} p 8 (omega arith) in
      let (additional, g) = u16_at-ok {E = Unit {0}} p 10 (omega arith) in
      elim (skip_records-Settled (answers + authority) offset) [
        | inr k ↦ rw (e, f, k) (0, refl)
        | inl (at, k) ↦
            rw (e, f, k, g) (or_zero-ok (find_opt p additional at) (find_opt-Settled additional at))
      ]
