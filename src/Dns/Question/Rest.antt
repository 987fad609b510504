-- ===== src/Dns/Question/Rest.antt =====
-- The label loop of parseQuestion read from the bytes that are left, with no offsets into the packet.
use cotten_router.Prelude.{
  inl, inr, Bool-cases, false, ℕ, zero, suc, ◌+◌, ◌*◌, ◌/◌, ◌%◌, ◌≤◌, ◌≡◌, refl, sym, ap, ◌∙◌, not,
  ◌||◌, List, [], ◌∷◌, ◌++◌, ltb, leb, ◌==◌, if◌then◌else◌, Bytes, length, take, drop, all, Result,
  ok, err, no_fuel, slice, byte_at-drop, u16_at-drop, slice-drop, drop-drop, length-drop,
  take-append-drop, length-take, arith,
}
use cotten_router.Dns.Text.{Unicode, to_lower, join}
use cotten_router.Dns.Question.{
  Question, WireError, short_packet, compressed_qname, invalid_label, unterminated_name, bad_byte,
  finish, scan,
}

module _ (u : Unicode) where
  abbrev pub finish_rest : Bytes → ℕ → List Bytes → Result WireError Question
  finish_rest r offset [] = err invalid_label
  finish_rest (a ∷ b ∷ c ∷ d ∷ r) offset (l ∷ ls) = ok (record {
    name = to_lower u (join (l ∷ ls));
    type = a * 256 + b;
    class = c * 256 + d;
    end = offset + 4;
  })
  finish_rest _ offset (l ∷ ls) = err short_packet

  abbrev pub scan_rest : ℕ → Bytes → ℕ → List Bytes → Result WireError Question
  scan_rest zero r offset labels = no_fuel
  scan_rest (suc fuel) [] offset labels = err unterminated_name
  scan_rest (suc fuel) (len ∷ r) offset labels =
      let onward = scan_rest fuel (drop len r) (offset + 1 + len) (labels ++ take len r ∷ []) in
      if len == 0
      then finish_rest r (offset + 1) labels
      else if not (len / 64 % 4 == 0)
      then err compressed_qname
      else if ltb 63 len || ltb (length r) len
      then err invalid_label
      else if all (λ b. not (bad_byte b)) (take len r)
      then onward
      else err invalid_label

  module _ (p : Bytes) where
    finish-finish_rest :
        (r : Bytes) (offset : ℕ) (labels : List Bytes)
        → drop offset p ≡ r
        → offset ≤ length p
        → finish u p offset labels ≡ finish_rest r offset labels
    unfolding finish
    finish-finish_rest r offset [] h lt = refl
    finish-finish_rest (a ∷ b ∷ c ∷ d ∷ r) offset (l ∷ ls) h lt = ground (
      arith,
      length-drop offset p,
      ap length h,
      u16_at-drop {E = WireError} p offset a b (c ∷ d ∷ r) h,
      u16_at-drop {E = WireError} p (offset + 2) c d r (sym (drop-drop offset 2 p) ∙ ap (drop 2) h),
    )
    finish-finish_rest [] offset (l ∷ ls) h lt = ground (arith, length-drop offset p, ap length h)
    finish-finish_rest (a ∷ []) offset (l ∷ ls) h lt =
        ground (arith, length-drop offset p, ap length h)
    finish-finish_rest (a ∷ b ∷ []) offset (l ∷ ls) h lt =
        ground (arith, length-drop offset p, ap length h)
    finish-finish_rest (a ∷ b ∷ c ∷ []) offset (l ∷ ls) h lt =
        ground (arith, length-drop offset p, ap length h)

    slice-take :
        (r : Bytes) (offset len : ℕ)
        → drop offset p ≡ len ∷ r
        → len ≤ length r
        → slice {E = WireError} p (offset + 1) (offset + 1 + len) ≡ ok (take len r)
    slice-take r offset len h fits =
        slice-drop p (offset + 1) len (take len r) (drop len r)
          (sym (drop-drop offset 1 p) ∙ ap (drop 1) h ∙ sym (take-append-drop len r))
          (omega (arith, length-take len r)) (omega (arith, length-drop offset p, ap length h))
          (omega (arith, length-drop offset p, ap length h))

    drop-onward :
        (r : Bytes) (offset len : ℕ)
        → drop offset p ≡ len ∷ r
        → drop (offset + 1 + len) p ≡ drop len r
    drop-onward r offset len h =
        sym (drop-drop (offset + 1) len p)
        ∙ ap (drop len) (sym (drop-drop offset 1 p) ∙ ap (drop 1) h)

    pub scan-scan_rest :
        (fuel : ℕ) (r : Bytes) (offset : ℕ) (labels : List Bytes)
        → drop offset p ≡ r
        → offset ≤ length p
        → scan u p fuel offset labels ≡ scan_rest fuel r offset labels
    unfolding scan
    scan-scan_rest zero r offset labels h lt = refl
    scan-scan_rest (suc fuel) [] offset labels h lt =
        ground (arith, length-drop offset p, ap length h)
    scan-scan_rest (suc fuel) (len ∷ r) offset labels h lt =
        let size : length p ≡ offset + 1 + length r =
          omega (arith, length-drop offset p, ap length h) in
        let inside : leb (length p) offset ≡ false = ground arith in
        let room : ltb (length p) (offset + 1 + len) ≡ ltb (length r) len = ground arith in
        let start = byte_at-drop {E = WireError} p offset len r h in
        let after : drop (offset + 1) p ≡ r = sym (drop-drop offset 1 p) ∙ ap (drop 1) h in
        let onward =
          scan-scan_rest fuel (drop len r) (offset + 1 + len) (labels ++ take len r ∷ [])
            (drop-onward r offset len h) in
        rw (inside, start, room)
          (elim (Bool-cases (len == 0)) [
            | inl z ↦ rw z (finish-finish_rest r (offset + 1) labels after (omega arith))
            | inr nz ↦ elim (Bool-cases (len / 64 % 4 == 0)) [
              | inr c ↦ rw (nz, c) refl
              | inl c ↦ elim (Bool-cases (ltb 63 len || ltb (length r) len)) [
                | inl big ↦ rw (nz, c, big) refl
                | inr fits ↦
                    let short : len ≤ length r = ground arith in
                    rw (nz, c, fits, slice-take r offset len h short)
                      (elim (Bool-cases (all (λ b. not (bad_byte b)) (take len r))) [
                        | inl good ↦ rw good (onward (omega arith))
                        | inr bad ↦ rw bad refl
                      ])
              ]
            ]
          ])
