-- ===== src/Dns/Response.antt =====
-- ErrorResponse and RefusedResponse of internal/dnswire/query.go. A nil slice is the empty list.
use cotten_router.Prelude.{
  ℕ, ◌+◌, ◌*◌, ◌/◌, ◌%◌, ◌^◌, ◌<◌, ◌≡◌, refl, true, false, [], arith, ltb, if◌then◌else◌, Bytes,
  length, ok, bit, high_byte, low_byte, put_u16, clear_bit, set_bit, clear_low, get_or,
}
use cotten_router.Dns.Text.{Unicode}
use cotten_router.Dns.Question.{Question, parse}
use cotten_router.Dns.Question.Spec.{Header, message, flags, section}
use cotten_router.Dns.Question.Decides.{parse_iff}

-- flags &^= 0x040f; flags |= 0x8000 | (rcode & 0x000f). The low four bits are clear when the code
-- is put in, so that `|` is `+` there.
unfoldable pub reply_flags : ℕ → ℕ → ℕ
reply_flags flags rcode = set_bit (clear_low (clear_bit flags 10) 4) 15 + rcode % 2 ^ 4

-- The guard keeps the two reads and the two writes inside the packet.
unfoldable pub error_response : Bytes → ℕ → Bytes
unfolding reply_flags
error_response query rcode =
    if ltb (length query) 12
    then []
    else let flags = get_or query 2 0 * 256 + get_or query 3 0 in
      put_u16 query 2 (reply_flags flags rcode)

unfoldable pub refused_response : Bytes → Bytes
unfolding error_response
refused_response query = error_response query 5

-- The header of the reply.
abbrev pub answered : Header → ℕ → Header
answered h rcode = record h {
  flags_hi = high_byte (reply_flags (flags h) rcode);
  flags_lo = low_byte (reply_flags (flags h) rcode);
}

error_response-message :
    (h : Header) (body : Bytes) (rcode : ℕ)
    → error_response (message h body) rcode ≡ message (answered h rcode) body
unfolding error_response
error_response-message h body rcode =
    let long : ltb (length (message h body)) 12 ≡ false = ground arith in rw long refl

-- The bits of the reply's flags: a response, not authoritative, with the code asked for, and all
-- other bits of the query's flags.
pub record IsReplyTo (h r : Header) (rcode : ℕ) : Type 0 where
  pub response : bit (flags r) 15 ≡ 1
  pub not_authoritative : bit (flags r) 10 ≡ 0
  pub code : flags r % 16 ≡ rcode % 16
  pub low_bits_kept : flags r / 16 % 64 ≡ flags h / 16 % 64
  pub high_bits_kept : flags r / 2048 % 16 ≡ flags h / 2048 % 16

answered-IsReplyTo :
    (h : Header) (rcode : ℕ) → flags h < 65536 → IsReplyTo h (answered h rcode) rcode
unfolding reply_flags
answered-IsReplyTo h rcode lt = record {
  response = omega arith;
  not_authoritative = omega arith;
  code = omega arith;
  low_bits_kept = omega arith;
  high_bits_kept = omega arith;
}

-- A header and any body are answered by a header with the same identifier and counts, with the
-- flags of a reply, and by the same body.
pub error_response-IsReplyTo :
    (h : Header) (body : Bytes) (rcode : ℕ)
    → flags h < 65536
    → (r : Header) × (error_response (message h body) rcode ≡ message r body)
      × IsReplyTo h r rcode
      × (r ≡ record h { flags_hi = r.flags_hi; flags_lo = r.flags_lo })
error_response-IsReplyTo h body rcode lt =
    (answered h rcode, error_response-message h body rcode, answered-IsReplyTo h rcode lt, refl)

-- A query that the router has accepted is answered by a reply that its own reply parser accepts,
-- with the very same question, whatever the code.
pub parse-error_response :
    (u : Unicode) (p : Bytes) (rcode : ℕ) (q : Question)
    → parse u p true ≡ ok q
    → parse u (error_response p rcode) false ≡ ok q
unfolding reply_flags
parse-error_response u p rcode q h =
    let a = (parse_iff u p true q).0 h in
    (parse_iff u (error_response p rcode) false q).1 (record {
      header = answered a.header rcode;
      labels = a.labels;
      fields = a.fields;
      rest = a.rest;
      wire = rw a.wire (error_response-message a.header (section a.labels a.fields a.rest) rcode);
      direction = omega arith;
      counted = a.counted;
      well_formed = a.well_formed;
      named = a.named;
      asked = a.asked;
    })
