-- ===== src/Router/Hello/Total.antt =====
-- The parser of a ClientHello never reads outside it, and ends.
use cotten_router.Prelude.{
  ℕ, zero, suc, ◌+◌, ◌≤◌, ◌<◌, ◌≡◌, refl, ◌⊎◌, inl, inr, ◌&&◌, arith, ltb, leb, ◌==◌, Bool-cases,
  Bytes, length, Result, ok, err, byte_at-ok, u16_at-ok, slice-ok, if_cases, nat_eq,
}
use cotten_router.Dns.Text.{Unicode, to_lower}
use cotten_router.Router.Hello.{
  HelloError, truncated, no_server_name, scan_names, parse_server_name_extension, scan_extensions,
  parse_extensions, parse_ciphers, parse_server_name,
}

-- A name or an error; no panic and no lack of fuel.
abbrev pub Answers : Result HelloError Bytes → Type 0
Answers r = ((name : Bytes) × (r ≡ ok name)) ⊎ ((e : HelloError) × (r ≡ err e))

-- Within the bytes, and with a round to each byte that is left.
abbrev Covered : Bytes → ℕ → ℕ → ℕ → Type 0
Covered p fuel offset end = (end ≤ length p) × (0 < fuel) × (end < fuel + offset)

module _ (u : Unicode) (p : Bytes) where
  scan_names-Answers :
      (fuel offset end : ℕ) → Covered p fuel offset end → Answers (scan_names u p fuel offset end)
  unfolding scan_names
  scan_names-Answers zero offset end c = absurd (omega (arith, c.1))
  scan_names-Answers (suc fuel) offset end c = elim (Bool-cases (ltb end (offset + 3))) [
    | inl over ↦ rw over (inr (no_server_name, refl))
    | inr inside ↦
        let (type, e) = byte_at-ok {E = HelloError} p offset (ground (arith, c.0, inside)) in
        let (size, f) = u16_at-ok {E = HelloError} p (offset + 1) (ground (arith, c.0, inside)) in
        rw (inside, e, f)
          (elim (Bool-cases (ltb end (offset + 3 + size))) [
            | inl long ↦ rw long (inr (truncated, refl))
            | inr fits ↦
                let hi : offset + 3 + size ≤ end = ground (arith, fits) in
                let (name, g) =
                  slice-ok {E = HelloError} p (offset + 3) (offset + 3 + size) (omega arith)
                    (omega (arith, hi, c.0)) in
                rw (fits, g)
                  (if_cases Answers (type == 0 && ltb 0 size) _ _ (λ h. inl (to_lower u name, refl))
                    (λ h.
                      scan_names-Answers fuel (offset + 3 + size) end
                        (c.0, omega (arith, c.2, hi), omega (arith, c.2))))
          ])
  ]

  parse_server_name_extension-Answers : Answers (parse_server_name_extension u p)
  unfolding parse_server_name_extension
  parse_server_name_extension-Answers = elim (Bool-cases (ltb (length p) 2)) [
    | inl short ↦ rw short (inr (truncated, refl))
    | inr long ↦
        let (size, e) = u16_at-ok {E = HelloError} p 0 (ground arith) in
        rw (long, e)
          (if_cases Answers (ltb (length p) (2 + size)) _ _ (λ h. inr (truncated, refl))
            (λ h.
              scan_names-Answers (suc (length p)) 2 (2 + size)
                (ground (arith, h), omega arith, ground (arith, h))))
  ]

module _ (u : Unicode) (p : Bytes) where
  scan_extensions-Answers :
      (fuel offset end : ℕ)
      → Covered p fuel offset end
      → Answers (scan_extensions u p fuel offset end)
  unfolding scan_extensions
  scan_extensions-Answers zero offset end c = absurd (omega (arith, c.1))
  scan_extensions-Answers (suc fuel) offset end c = elim (Bool-cases (ltb end (offset + 4))) [
    | inl over ↦ rw over (inr (no_server_name, refl))
    | inr inside ↦
        let (type, e) = u16_at-ok {E = HelloError} p offset (ground (arith, c.0, inside)) in
        let (size, f) = u16_at-ok {E = HelloError} p (offset + 2) (ground (arith, c.0, inside)) in
        rw (inside, e, f)
          (elim (Bool-cases (ltb end (offset + 4 + size))) [
            | inl long ↦ rw long (inr (truncated, refl))
            | inr fits ↦
                let hi : offset + 4 + size ≤ end = ground (arith, fits) in
                let (name, g) =
                  slice-ok {E = HelloError} p (offset + 4) (offset + 4 + size) (omega arith)
                    (omega (arith, hi, c.0)) in
                rw (fits, g)
                  (if_cases Answers (type == 0) _ _
                    (λ h. parse_server_name_extension-Answers u name)
                    (λ h.
                      scan_extensions-Answers fuel (offset + 4 + size) end
                        (c.0, omega (arith, c.2, hi), omega (arith, c.2))))
          ])
  ]

  parse_extensions-Answers : (offset : ℕ) → Answers (parse_extensions u p offset)
  unfolding parse_extensions
  parse_extensions-Answers offset = elim (Bool-cases (ltb (length p) (offset + 2))) [
    | inl short ↦ rw short (inr (no_server_name, refl))
    | inr long ↦
        let (size, e) = u16_at-ok {E = HelloError} p offset (ground arith) in
        rw (long, e)
          (if_cases Answers (ltb (length p) (offset + 2 + size)) _ _ (λ h. inr (truncated, refl))
            (λ h.
              scan_extensions-Answers (suc (length p)) (offset + 2) (offset + 2 + size)
                (ground (arith, h), omega arith, ground (arith, h))))
  ]

  parse_ciphers-Answers : (offset : ℕ) → Answers (parse_ciphers u p offset)
  unfolding parse_ciphers
  parse_ciphers-Answers offset = elim (Bool-cases (ltb (length p) (offset + 2))) [
    | inl short ↦ rw short (inr (truncated, refl))
    | inr long ↦
        let (size, e) = u16_at-ok {E = HelloError} p offset (ground arith) in
        rw (long, e)
          (elim (Bool-cases (leb (length p) (offset + 2 + size))) [
            | inl over ↦ rw over (inr (truncated, refl))
            | inr inside ↦
                let (n, f) = byte_at-ok {E = HelloError} p (offset + 2 + size) (ground arith) in
                rw (inside, f) (parse_extensions-Answers (offset + 2 + size + 1 + n))
          ])
  ]

  -- Whatever bytes a client sends as its ClientHello, and whatever sizes stand in them, the parser
  -- gives a server name or an error: it reads nothing outside the bytes, and its loops end.
  pub parse_server_name_total : Answers (parse_server_name u p)
  unfolding parse_server_name
  parse_server_name_total = elim (Bool-cases (leb (length p) 34)) [
    | inl short ↦ rw short (inr (truncated, refl))
    | inr long ↦
        let (n, e) = byte_at-ok {E = HelloError} p 34 (ground arith) in
        rw (long, e) (parse_ciphers-Answers (35 + n))
  ]
