-- ===== src/Dns/Question/Decides.antt =====
-- The parser of DNS questions against the wire format.
use cotten_router.Prelude.{
  lt→ltb, suc, ◌+◌, ◌*◌, ◌≤◌, ◌<◌, ◌≡◌, refl, ap, ◌∙◌, ◌↔◌, ◌⊎◌, inl, inr, Bool, true, false, not,
  ◌&&◌, List, [], ◌∷◌, arith, ltb, ◌==◌, if◌then◌else◌, Bytes, length, length-append, Result, ok,
  err, u16_at-drop, bit,
}
use cotten_router.Dns.Text.{Unicode}
use cotten_router.Dns.Question.{
  Question, WireError, short_packet, not_query, not_reply, no_question, parse,
}
use cotten_router.Dns.Question.Rest.{scan_rest, scan-scan_rest}
use cotten_router.Dns.Question.Loop.{Settles, scan_rest-Read, scan_rest-section, scan_rest-total}
use cotten_router.Dns.Question.Spec.{Header, message, flags, section, encode, Asks, Fields}

-- A packet is too short for a header, or is a header and a body.
Header-cases :
    (p : Bytes) → (length p < 12) ⊎ ((h : Header) × (body : Bytes) × (p ≡ message h body))
Header-cases (a ∷ b ∷ c ∷ d ∷ e ∷ f ∷ g ∷ h ∷ i ∷ j ∷ k ∷ l ∷ body) = inr (
  record {
    id_hi = a;
    id_lo = b;
    flags_hi = c;
    flags_lo = d;
    questions_hi = e;
    questions_lo = f;
    answers_hi = g;
    answers_lo = h;
    authority_hi = i;
    authority_lo = j;
    additional_hi = k;
    additional_lo = l;
  },
  body,
  refl,
)
Header-cases [] = inl (omega arith)
Header-cases _ = inl (omega arith)

length-encode : (ls : List Bytes) → length ls ≤ length (encode ls)
length-encode [] = omega arith
length-encode (l ∷ ls) = omega (arith, length-encode ls, length-append l (encode ls))

length-section :
    (ls : List Bytes) (f : Fields) (rest : Bytes) → length (encode ls) ≤ length (section ls f rest)
length-section ls f rest =
    omega (
      arith,
      length-append (encode ls) (0 ∷ f.type_hi ∷ f.type_lo ∷ f.class_hi ∷ f.class_lo ∷ rest),
    )

if-Settles :
    (b : Bool) (e : WireError) {r : Result WireError Question}
    → Settles r
    → Settles (if b then err e else r)
if-Settles true e s = inr (e, refl)
if-Settles false e s = s

if-ok :
    (b : Bool) (e : WireError) {r : Result WireError Question} {q : Question}
    → (if b then err e else r) ≡ ok q
    → (b ≡ false) × (r ≡ ok q)
if-ok true e h = cc
if-ok false e h = (refl, h)

-- The three tests of parseQuestion on a header.
abbrev no_query : Header → Bool → Bool
no_query h is_query = is_query && not (bit (flags h) 15 == 0)

abbrev no_reply : Header → Bool → Bool
no_reply h is_query = not is_query && bit (flags h) 15 == 0

abbrev no_count : Header → Bool
no_count h = h.questions_hi * 256 + h.questions_lo == 0

direction_of :
    (h : Header) (is_query : Bool)
    → no_query h is_query ≡ false
    → no_reply h is_query ≡ false
    → bit (flags h) 15 ≡ (if is_query then 0 else 1)
direction_of h true query reply = ground arith
direction_of h false query reply = ground arith

module _ (u : Unicode) where
  -- What parseQuestion does with a header, in the source's order.
  abbrev from_header : Header → Bytes → Bool → Result WireError Question
  from_header h body is_query =
      if no_query h is_query
      then err not_query
      else if no_reply h is_query
      then err not_reply
      else if no_count h
      then err no_question
      else scan_rest u (suc (length (message h body))) body 12 []

  parse-message :
      (h : Header) (body : Bytes) (is_query : Bool)
      → parse u (message h body) is_query ≡ from_header h body is_query
  unfolding parse
  parse-message h body is_query =
      let p = message h body in
      let long : ltb (length p) 12 ≡ false = ground arith in
      let loop = scan-scan_rest u p (suc (length p)) body 12 [] refl (omega arith) in
      rw
        (
          long,
          u16_at-drop {E = WireError} p 2 h.flags_hi h.flags_lo _ refl,
          u16_at-drop {E = WireError} p 4 h.questions_hi h.questions_lo _ refl,
          loop,
        )
        refl

  -- The parser returns a question or an error on every input: it never reads outside the packet,
  -- and its loop ends.
  pub parse_total : (p : Bytes) (is_query : Bool) → Settles (parse u p is_query)
  parse_total p is_query = elim (Header-cases p) [
    | inl short ↦ inr (short_packet, unfold parse in rw (lt→ltb (length p) 12 short) refl)
    | inr (h, body, e) ↦
        rw (e, parse-message h body is_query)
          (if-Settles (no_query h is_query) not_query (
            if-Settles (no_reply h is_query) not_reply (
              if-Settles (no_count h) no_question
                (scan_rest-total u (suc (length (message h body))) body 12 [] (omega arith)))))
  ]

  -- What the parser accepts is a query (or a reply), with the question that it spells.
  parse-Asks :
      (p : Bytes) (is_query : Bool) (q : Question) → parse u p is_query ≡ ok q → Asks u p is_query q
  parse-Asks p is_query q h = elim (Header-cases p) [
    | inl short ↦ absurd (unfold parse in cc (rw (lt→ltb (length p) 12 short) at h))
    | inr (hd, body, e) ↦
        let (d, h1) =
          if-ok (no_query hd is_query) not_query (rw (e, parse-message hd body is_query) at h) in
        let (d', h2) = if-ok (no_reply hd is_query) not_reply h1 in
        let (n, h3) = if-ok (no_count hd) no_question h2 in
        let read = scan_rest-Read u (suc (length (message hd body))) body 12 [] q h3 in
        record {
          header = hd;
          labels = read.labels;
          fields = read.fields;
          rest = read.rest;
          wire = e ∙ ap (message hd) read.wire;
          direction = direction_of hd is_query d d';
          counted = ground (arith, n);
          well_formed = read.well_formed;
          named = read.named;
          asked = read.asked;
        }
  ]

  -- Every such message is accepted.
  Asks-parse :
      (p : Bytes) (is_query : Bool) (q : Question) → Asks u p is_query q → parse u p is_query ≡ ok q
  Asks-parse p is_query q a =
      let body = section a.labels a.fields a.rest in
      let hd = a.header in
      let query : no_query hd is_query ≡ false = ground (arith, a.direction) in
      let reply : no_reply hd is_query ≡ false = ground (arith, a.direction) in
      let count : no_count hd ≡ false = ground (arith, a.counted) in
      rw (a.wire, parse-message a.header body is_query, query, reply, count, a.asked)
        (scan_rest-section u a.labels [] a.fields a.rest (suc (length (message hd body))) 12
          a.well_formed a.named
          (omega (arith, length-encode a.labels, length-section a.labels a.fields a.rest)))

  -- The parser accepts a packet with a question exactly if the packet is a query (or a reply, where
  -- one is wanted) that counts a question and spells this one first: labels of 1 to 63 bytes with no
  -- zero byte and no dot, a zero byte, the type and the class.
  pub parse_iff :
      (p : Bytes) (is_query : Bool) (q : Question)
      → (parse u p is_query ≡ ok q) ↔ Asks u p is_query q
  parse_iff p is_query q = (parse-Asks p is_query q, Asks-parse p is_query q)
