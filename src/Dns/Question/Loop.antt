-- ===== src/Dns/Question/Loop.antt =====
-- The label loop decides the wire format: what it accepts is an encoded question, and every encoded
-- question is accepted.
use cotten_router.Prelude.{
  length-drop, ◌⊎◌, length-take, ltb, inr, subst, inl, Bool-cases, append-nil, ℕ, zero, suc, ◌+◌,
  ◌≡◌, ◌≢◌, refl, ap, sym, ◌∙◌, true, false, not, List, [], ◌∷◌, ◌++◌, ◌==◌, ◌||◌, ◌/◌, ◌%◌, ◌<◌,
  Bytes, length, take, drop, all, All, ok, err, Result, arith, length-append, take-append-drop,
  append_assoc, take-length-append, drop-length-append,
}
use cotten_router.Dns.Text.{Unicode}
use cotten_router.Dns.Question.{
  compressed_qname, short_packet, unterminated_name, invalid_label, Question, WireError, bad_byte,
}
use cotten_router.Dns.Question.Rest.{scan_rest, finish_rest}
use cotten_router.Dns.Question.Spec.{IsLabel, encode, Fields, section, spelled}

bytes-good : (l : Bytes) → all (λ b. not (bad_byte b)) l ≡ true → All (λ b. (b ≢ 0) × (b ≢ b'.')) l
bytes-good [] h = tt
bytes-good (b ∷ l) h = ((ground arith, ground arith), bytes-good l (ground arith))

good-bytes : (l : Bytes) → All (λ b. (b ≢ 0) × (b ≢ b'.')) l → all (λ b. not (bad_byte b)) l ≡ true
good-bytes [] h = refl
good-bytes (b ∷ l) h = ground (arith, good-bytes l h.1)

pub record Read (u : Unicode) (r : Bytes) (offset : ℕ) (before : List Bytes) (q : Question)
    : Type 0 where
  pub labels : List Bytes
  pub fields : Fields
  pub rest : Bytes
  pub wire : r ≡ section labels fields rest
  pub well_formed : All IsLabel labels
  pub named : before ++ labels ≢ []
  pub asked : q ≡ spelled u offset before labels fields

-- A value or one of the errors: neither a panic nor a loop cut short.
abbrev pub Settles {ℓ} : {A : Type ℓ} → Result WireError A → Type ℓ
Settles {A = A} r = ((a : A) × (r ≡ ok a)) ⊎ ((e : WireError) × (r ≡ err e))

module _ (u : Unicode) where
  finish_rest-total :
      (r : Bytes) (offset : ℕ) (before : List Bytes) → Settles (finish_rest u r offset before)
  finish_rest-total r offset [] = inr (invalid_label, refl)
  finish_rest-total [] offset (l ∷ ls) = inr (short_packet, refl)
  finish_rest-total (_ ∷ []) offset (l ∷ ls) = inr (short_packet, refl)
  finish_rest-total (_ ∷ _ ∷ []) offset (l ∷ ls) = inr (short_packet, refl)
  finish_rest-total (_ ∷ _ ∷ _ ∷ []) offset (l ∷ ls) = inr (short_packet, refl)
  finish_rest-total (_ ∷ _ ∷ _ ∷ _ ∷ r) offset (l ∷ ls) = inl (_, refl)

  finish_rest-Read :
      (r : Bytes) (offset : ℕ) (before : List Bytes) (q : Question)
      → finish_rest u r (offset + 1) before ≡ ok q
      → Read u (0 ∷ r) offset before q
  finish_rest-Read r offset [] q h = cc
  finish_rest-Read [] offset (l ∷ ls) q h = cc
  finish_rest-Read (_ ∷ []) offset (l ∷ ls) q h = cc
  finish_rest-Read (_ ∷ _ ∷ []) offset (l ∷ ls) q h = cc
  finish_rest-Read (_ ∷ _ ∷ _ ∷ []) offset (l ∷ ls) q h = cc
  finish_rest-Read (a ∷ b ∷ c ∷ d ∷ r) offset (l ∷ ls) q h = record {
    labels = [];
    fields = record { type_hi = a; type_lo = b; class_hi = c; class_lo = d };
    rest = r;
    wire = refl;
    well_formed = tt;
    named = (λ e. cc);
    asked = ground (arith, append-nil (l ∷ ls));
  }

  Read-label :
      (n : ℕ) (l r s : Bytes) (offset : ℕ) (before : List Bytes) (q : Question)
      → n ≡ length l
      → s ≡ l ++ r
      → IsLabel l
      → Read u r (offset + 1 + n) (before ++ l ∷ []) q
      → Read u (n ∷ s) offset before q
  Read-label n l r s offset before q e split good read = record {
    labels = l ∷ read.labels;
    fields = read.fields;
    rest = read.rest;
    wire = rw (e, split, append_assoc) (ap (λ t. length l ∷ (l ++ t)) read.wire);
    well_formed = (good, read.well_formed);
    named = λ empty. read.named (append_assoc before (l ∷ []) read.labels ∙ empty);
    asked =
        ground
          (arith, append_assoc before (l ∷ []) read.labels, length-append l (encode read.labels));
  }

  pub scan_rest-Read :
      (fuel : ℕ) (r : Bytes) (offset : ℕ) (before : List Bytes) (q : Question)
      → scan_rest u fuel r offset before ≡ ok q
      → Read u r offset before q
  scan_rest-Read zero r offset before q h = cc
  scan_rest-Read (suc fuel) [] offset before q h = cc
  scan_rest-Read (suc fuel) (len ∷ r) offset before q h = elim (Bool-cases (len == 0)) [
    | inl z ↦
        let e : len ≡ 0 = ground arith in
        subst (λ n. Read u (n ∷ r) offset before q) (sym e)
          (finish_rest-Read r offset before q (rw z at h))
    | inr nz ↦ elim (Bool-cases (not (len / 64 % 4 == 0))) [
      | inl c ↦ absurd (ground (arith, rw (nz, c) at h))
      | inr c ↦ elim (Bool-cases (ltb 63 len || ltb (length r) len)) [
        | inl big ↦ absurd (ground (arith, rw (nz, c, big) at h))
        | inr fits ↦ elim (Bool-cases (all (λ b. not (bad_byte b)) (take len r))) [
          | inr bad ↦ absurd (ground (arith, rw (nz, c, fits, bad) at h))
          | inl good ↦
              let size : len ≡ length (take len r) = ground (arith, length-take len r) in
              Read-label len (take len r) (drop len r) r offset before q size
                (sym (take-append-drop len r))
                (ground arith, ground arith, bytes-good (take len r) good)
                (scan_rest-Read fuel (drop len r) (offset + 1 + len) (before ++ take len r ∷ []) q
                  (rw (nz, c, fits, good) at h))
        ]
      ]
    ]
  ]

  -- Every encoded question is accepted, with one round of fuel to a label and one for the end.
  pub scan_rest-section :
      (ls before : List Bytes) (f : Fields) (rest : Bytes) (fuel offset : ℕ)
      → All IsLabel ls
      → before ++ ls ≢ []
      → length ls < fuel
      → scan_rest u fuel (section ls f rest) offset before ≡ ok (spelled u offset before ls f)
  scan_rest-section ls before f rest zero offset good named enough = absurd (omega arith)
  scan_rest-section [] [] f rest (suc fuel) offset good named enough = absurd (named refl)
  scan_rest-section [] (b ∷ before) f rest (suc fuel) offset good named enough =
      ground (arith, append-nil (b ∷ before))
  scan_rest-section (l ∷ ls) before f rest (suc fuel) offset good named enough =
      let tail = section ls f rest in
      let read =
        scan_rest-section ls (before ++ l ∷ []) f rest fuel (offset + 1 + length l) good.1
          (λ e. named (sym (append_assoc before (l ∷ []) ls) ∙ e)) (omega arith) in
      let some_byte : (length l == 0) ≡ false = ground arith in
      let plain : not (length l / 64 % 4 == 0) ≡ false = ground arith in
      let fits : (ltb 63 (length l) || ltb (length (l ++ tail)) (length l)) ≡ false =
        ground (arith, length-append l tail) in
      rw
        (
          append_assoc l (encode ls) _,
          some_byte,
          plain,
          fits,
          take-length-append l tail,
          drop-length-append l tail,
          good-bytes l good.0.2,
          read,
        )
        (ground (arith, append_assoc before (l ∷ []) ls, length-append l (encode ls)))

  -- The loop never panics, and one round to a byte left is fuel enough.
  pub scan_rest-total :
      (fuel : ℕ) (r : Bytes) (offset : ℕ) (before : List Bytes)
      → length r < fuel
      → Settles (scan_rest u fuel r offset before)
  scan_rest-total zero r offset before enough = absurd (omega arith)
  scan_rest-total (suc fuel) [] offset before enough = inr (unterminated_name, refl)
  scan_rest-total (suc fuel) (len ∷ r) offset before enough = elim (Bool-cases (len == 0)) [
    | inl z ↦ rw z (finish_rest-total r (offset + 1) before)
    | inr nz ↦ elim (Bool-cases (not (len / 64 % 4 == 0))) [
      | inl c ↦ rw (nz, c) (inr (compressed_qname, refl))
      | inr c ↦ elim (Bool-cases (ltb 63 len || ltb (length r) len)) [
        | inl big ↦ rw (nz, c, big) (inr (invalid_label, refl))
        | inr fits ↦ elim (Bool-cases (all (λ b. not (bad_byte b)) (take len r))) [
          | inr bad ↦ rw (nz, c, fits, bad) (inr (invalid_label, refl))
          | inl good ↦
              rw (nz, c, fits, good)
                (scan_rest-total fuel (drop len r) (offset + 1 + len) (before ++ take len r ∷ [])
                  (omega (arith, length-drop len r)))
        ]
      ]
    ]
  ]
