-- ===== src/Router/Verify/Txt.antt =====
-- What binaryTXTResponse builds.
use cotten_router.Prelude.{
  ℕ, zero, suc, ◌+◌, ◌≤◌, ◌<◌, ◌≡◌, refl, sym, ap, ◌∙◌, true, false, List, [], ◌∷◌, ◌++◌,
  append_assoc, arith, ltb, if◌then◌else◌, Bytes, length, take, drop, All, length-append,
  length-take, length-drop, take-append-drop, ok, byte_at, slice, slice-drop, high_byte, low_byte,
  nat_eq,
}
use cotten_router.Dns.Text.{Unicode}
use cotten_router.Dns.Question.{Question, parse}
use cotten_router.Dns.Question.Spec.{encode, Header, message, Fields, section}
use cotten_router.Dns.Question.Decides.{parse_iff}
use cotten_router.Router.Verify.{strings, binary_txt_response}

-- The pieces put together.
abbrev pub joined : List Bytes → Bytes
joined [] = []
joined (c ∷ cs) = c ++ joined cs

-- With a round to each byte, the loop writes the whole content as character strings of 1 to 255
-- bytes, each behind its length.
pub strings-encode :
    (fuel : ℕ) (content : Bytes)
    → length content ≤ fuel
    → (cs : List Bytes) × (strings fuel content ≡ encode cs)
      × All (λ c. (0 < length c) × (length c ≤ 255)) cs
      × (joined cs ≡ content)
unfolding strings
strings-encode zero [] h = ([], refl, tt, refl)
strings-encode zero (b ∷ content) h = absurd (omega arith)
strings-encode (suc fuel) [] h = ([], refl, tt, refl)
strings-encode (suc fuel) (b ∷ content) h =
    let all = b ∷ content in
    let size = if ltb 255 (length all) then 255 else length all in
    let some_bytes : 0 < size = ground arith in
    let few : size ≤ 255 = ground arith in
    let inside : size ≤ length all = ground arith in
    let piece : length (take size all) ≡ size = omega (arith, length-take size all, inside) in
    let (cs, e, ok_cs, j) =
      strings-encode fuel (drop size all) (omega (arith, length-drop size all, some_bytes, h)) in
    (
      take size all ∷ cs,
      (λ i. sym piece i ∷ (take size all ++ e i)),
      ((omega (arith, piece, some_bytes), omega (arith, piece, few)), ok_cs),
      ap (◌++◌ (take size all)) j ∙ take-append-drop size all,
    )

-- The reply's bytes behind the question.
abbrev answer : Bytes → Bytes
answer content =
    let rdata = strings (length content) content in
    0xc0
    ∷ 0x0c
    ∷ 0
    ∷ 16
    ∷ 0
    ∷ 1
    ∷ 0
    ∷ 0
    ∷ 0
    ∷ 60
    ∷ high_byte (length rdata)
    ∷ low_byte (length rdata)
    ∷ (rdata ++ (0 ∷ 0 ∷ 41 ∷ 0x10 ∷ 0 ∷ 0 ∷ 0 ∷ 0 ∷ 0 ∷ 0 ∷ 0 ∷ []))

abbrev reply_header : Header → Header
reply_header h = record {
  id_hi = h.id_hi;
  id_lo = h.id_lo;
  flags_hi = 0x84;
  flags_lo = 0;
  questions_hi = 0;
  questions_lo = 1;
  answers_hi = 0;
  answers_lo = 1;
  authority_hi = 0;
  authority_lo = 0;
  additional_hi = 0;
  additional_lo = 1;
}

abbrev asked_bytes : List Bytes → Fields → Bytes
asked_bytes ls f = encode ls ++ (0 ∷ f.type_hi ∷ f.type_lo ∷ f.class_hi ∷ f.class_lo ∷ [])

section-split :
    (ls : List Bytes) (f : Fields) (rest : Bytes) → section ls f rest ≡ asked_bytes ls f ++ rest
section-split ls f rest =
    sym (append_assoc (encode ls) (0 ∷ f.type_hi ∷ f.type_lo ∷ f.class_hi ∷ f.class_lo ∷ []) rest)

binary_txt_response-message :
    (h : Header) (ls : List Bytes) (f : Fields) (rest content : Bytes)
    → binary_txt_response (message h (section ls f rest)) (12 + length (encode ls) + 5) content
      ≡ ok (message (reply_header h) (section ls f (answer content)))
unfolding binary_txt_response byte_at
binary_txt_response-message h ls f rest content =
    let p = message h (section ls f rest) in
    let n : length (asked_bytes ls f) ≡ length (encode ls) + 5 = omega (
      arith,
      length-append (encode ls) (0 ∷ f.type_hi ∷ f.type_lo ∷ f.class_hi ∷ f.class_lo ∷ []),
    ) in
    let long : 12 + length (asked_bytes ls f) ≤ length p =
      omega (arith, ap length (section-split ls f rest), length-append (asked_bytes ls f) rest) in
    let end : 12 + length (encode ls) + 5 ≡ 12 + length (asked_bytes ls f) = omega (arith, n) in
    let cut : slice {E = Unit {0}} p 12 (12 + length (asked_bytes ls f)) ≡ ok (asked_bytes ls f) =
      slice-drop p 12 (length (asked_bytes ls f)) (asked_bytes ls f) rest (section-split ls f rest)
        refl (omega (arith, long)) long in
    rw (end, cut)
      (ap (λ t. ok (message (reply_header h) t)) (sym (section-split ls f (answer content))))

-- A probe that the router has parsed is answered, whatever the content, by a reply that its reply
-- parser accepts, with the very same question.
pub parse-binary_txt_response :
    (u : Unicode) (p content : Bytes) (q : Question)
    → parse u p true ≡ ok q
    → (r : Bytes) × (binary_txt_response p q.end content ≡ ok r) × (parse u r false ≡ ok q)
parse-binary_txt_response u p content q h =
    let a = (parse_iff u p true q).0 h in
    let r = message (reply_header a.header) (section a.labels a.fields (answer content)) in
    (
      r,
      rw (a.wire, a.asked) (binary_txt_response-message a.header a.labels a.fields a.rest content),
      (parse_iff u r false q).1 (record {
        header = reply_header a.header;
        labels = a.labels;
        fields = a.fields;
        rest = answer content;
        wire = refl;
        direction = omega arith;
        counted = omega arith;
        well_formed = a.well_formed;
        named = a.named;
        asked = a.asked;
      }),
    )
