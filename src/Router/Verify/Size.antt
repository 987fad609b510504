-- ===== src/Router/Verify/Size.antt =====
-- How long the reply of binaryTXTResponse is.
use cotten_router.Prelude.{
  ℕ, zero, suc, ◌+◌, ◌-◌, ◌/◌, ◌≤◌, ◌<◌, ◌≡◌, refl, inl, inr, [], ◌∷◌, ◌++◌, arith, ltb, ltb→lt,
  le→leb, Bool-cases, Bytes, length, take, drop, length-append, length-take, length-drop, ok,
  byte_at, slice, byte_at-drop, high_byte, low_byte, get_or, drop-get_or, nat_eq,
}
use cotten_router.Router.Verify.{strings, assembled, binary_txt_response, data_size}

length-strings-le :
    (fuel : ℕ) (content : Bytes)
    → length (strings fuel content) ≤ length content + (length content + 254) / 255
unfolding strings
length-strings-le zero content = omega arith
length-strings-le (suc fuel) [] = omega arith
length-strings-le (suc fuel) (b ∷ content) = elim (Bool-cases (ltb 255 (length (b ∷ content)))) [
  | inl long ↦
      let more : 255 < length (b ∷ content) = ltb→lt 255 (length (b ∷ content)) long in
      let rest = drop 255 (b ∷ content) in
      rw long (
        omega (
          arith,
          more,
          length-append (take 255 (b ∷ content)) (strings fuel rest),
          length-take 255 (b ∷ content),
          length-drop 255 (b ∷ content),
          length-strings-le fuel rest,
        ))
  | inr short ↦
      let all = b ∷ content in
      rw short (
        omega (
          arith,
          length-append (take (length all) all) (strings fuel (drop (length all) all)),
          length-take (length all) all,
          length-drop (length all) all,
          length-strings-le fuel (drop (length all) all),
        ))
]

binary_txt_response-length :
    (p content : Bytes) (question_end : ℕ)
    → 12 ≤ question_end
    → question_end ≤ length p
    → (r : Bytes) × (binary_txt_response p question_end content ≡ ok r)
      × (length r ≡ question_end + 23 + length (strings (length content) content))
unfolding binary_txt_response slice
binary_txt_response-length p content question_end lo hi =
    let rdata = strings (length content) content in
    let question = take (question_end - 12) (drop 12 p) in
    let first : byte_at {E = Unit {0}} p 0 ≡ ok (get_or p 0 0) =
      byte_at-drop p 0 (get_or p 0 0) (drop 1 p) (drop-get_or 0 p 0 (omega arith)) in
    let second : byte_at {E = Unit {0}} p 1 ≡ ok (get_or p 1 0) =
      byte_at-drop p 1 (get_or p 1 0) (drop 2 p) (drop-get_or 1 p 0 (omega arith)) in
    (
      assembled (get_or p 0 0) (get_or p 1 0) question rdata,
      rw (first, second, le→leb 12 question_end lo, le→leb question_end (length p) hi) refl,
      omega (
        arith,
        length-append question (
            0xc0
            ∷ 0x0c
            ∷ 0
            ∷ 16
            ∷ 0
            ∷ 1
            ∷ 0
            ∷ 0
            ∷ 0
            ∷ 60
            ∷ high_byte (length rdata)
            ∷ low_byte (length rdata)
            ∷ (rdata ++ (0 ∷ 0 ∷ 41 ∷ 0x10 ∷ 0 ∷ 0 ∷ 0 ∷ 0 ∷ 0 ∷ 0 ∷ 0 ∷ []))),
        length-append rdata (0 ∷ 0 ∷ 41 ∷ 0x10 ∷ 0 ∷ 0 ∷ 0 ∷ 0 ∷ 0 ∷ 0 ∷ 0 ∷ []),
        length-take (question_end - 12) (drop 12 p),
        length-drop 12 p,
      ),
    )

-- Where the payload fits, a reply with as much data as data_size allows is no longer than the size
-- that was wanted.
pub binary_txt_response_fits :
    (p content : Bytes) (question_end target payload : ℕ)
    → 12 ≤ question_end
    → question_end ≤ length p
    → 0 < payload
    → payload ≤ data_size target question_end 0
    → length content ≡ data_size target question_end payload
    → (r : Bytes) × (binary_txt_response p question_end content ≡ ok r) × (length r ≤ target)
unfolding data_size
binary_txt_response_fits p content question_end target payload lo hi some_payload room size =
    let (r, e, n) = binary_txt_response-length p content question_end lo hi in
    let bound = length-strings-le (length content) content in
    let free = target - question_end - 25 in
    let data_bytes : length content ≡ free - (free / 256 + 1) = ground (arith, size, room) in
    let spare : payload ≤ free - (free / 256 + 1) = ground (arith, room) in
    (r, e, omega (arith, n, bound, data_bytes, spare, some_payload))
