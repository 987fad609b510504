-- ===== src/Tests/Wire.antt =====
-- The wire format of DNS, at a query for "a.b".
use cotten_router.Prelude.{
  ◌≡◌, refl, ◌↔◌, true, false, [], ◌∷◌, arith, Bytes, codes, ok, byte_at, slice, u16_at, nat_eq,
}
use cotten_router.Dns.Text.{Unicode, to_lower, join}
use cotten_router.Dns.Question.{Question, parse, scan, finish}
use cotten_router.Dns.Question.Spec.{Asks, Header, message}
use cotten_router.Dns.Question.Decides.{parse_iff, parse_total}
use cotten_router.Dns.Question.Loop.{Settles}
use cotten_router.Dns.Response.{
  error_response, IsReplyTo, error_response-IsReplyTo, parse-error_response,
}

abbrev pub ascii : Unicode
ascii = record { lower = λ s. s; trim = λ s. s }

abbrev header : Header
header = record {
  id_hi = 0x12;
  id_lo = 0x34;
  flags_hi = 1;
  flags_lo = 0;
  questions_hi = 0;
  questions_lo = 1;
  answers_hi = 0;
  answers_lo = 0;
  authority_hi = 0;
  authority_lo = 0;
  additional_hi = 0;
  additional_lo = 0;
}

-- The labels "A" and "b", type TXT, class IN.
abbrev body : Bytes
body = 1 ∷ 65 ∷ 1 ∷ 98 ∷ 0 ∷ 0 ∷ 16 ∷ 0 ∷ 1 ∷ []

abbrev pub query : Bytes
query = message header body

abbrev pub asked : Question
asked = record { name = codes "a.b"; type = 16; class = 1; end = 21 }

pub query-parse : parse ascii query true ≡ ok asked
unfolding parse scan finish u16_at byte_at slice to_lower join
query-parse = refl

parse_iff_example : (parse ascii query true ≡ ok asked) ↔ Asks ascii query true asked
parse_iff_example = parse_iff ascii query true asked

parse_total_example : Settles (parse ascii query false)
parse_total_example = parse_total ascii query false

error_response-IsReplyTo_example :
    (r : Header) × (error_response (message header body) 5 ≡ message r body)
    × IsReplyTo header r 5
    × (r ≡ record header { flags_hi = r.flags_hi; flags_lo = r.flags_lo })
error_response-IsReplyTo_example = error_response-IsReplyTo header body 5 (omega arith)

parse-error_response_example : parse ascii (error_response query 5) false ≡ ok asked
parse-error_response_example = parse-error_response ascii query 5 asked query-parse
