-- ===== src/Tests/Probes.antt =====
-- The replies to probes, at the query of Tests.Wire.
use cotten_router.Prelude.{
  ℕ, ◌≤◌, ◌<◌, ◌≡◌, refl, false, List, [], ◌∷◌, arith, Bytes, length, All, ok, byte_at, u16_at,
  nat_eq,
}
use cotten_router.Dns.Question.{parse}
use cotten_router.Dns.Question.Spec.{encode}
use cotten_router.Tests.Wire.{ascii, query, asked, query-parse}
use cotten_router.Router.Verify.{
  skip_labels, skip_dns_name, skip_records, find_opt, edns_payload_size, strings,
  binary_txt_response, data_size,
}
use cotten_router.Router.Verify.Edns.{edns_payload_size_total}
use cotten_router.Router.Verify.Txt.{joined, strings-encode, parse-binary_txt_response}
use cotten_router.Router.Verify.Size.{binary_txt_response_fits}

-- A header that counts one additional record, and an OPT record for 1232 bytes.
abbrev with_opt : Bytes
with_opt =
    0 ∷ 0 ∷ 0 ∷ 0 ∷ 0 ∷ 1 ∷ 0 ∷ 0 ∷ 0 ∷ 0 ∷ 0 ∷ 1 ∷ 0 ∷ 0 ∷ 41 ∷ 4 ∷ 208 ∷ 0 ∷ 0 ∷ 0 ∷ 0 ∷ 0 ∷ 0
    ∷ []

opt_found : edns_payload_size with_opt 12 ≡ ok 1232
unfolding edns_payload_size skip_records find_opt skip_dns_name skip_labels u16_at byte_at
opt_found = refl

edns_payload_size_total_example : (n : ℕ) × (edns_payload_size query 21 ≡ ok n)
edns_payload_size_total_example = edns_payload_size_total query 21 (omega arith)

strings-encode_example :
    (cs : List Bytes) × (strings 3 (7 ∷ 8 ∷ 9 ∷ []) ≡ encode cs)
    × All (λ c. (0 < length c) × (length c ≤ 255)) cs
    × (joined cs ≡ 7 ∷ 8 ∷ 9 ∷ [])
strings-encode_example = strings-encode 3 (7 ∷ 8 ∷ 9 ∷ []) (omega arith)

parse-binary_txt_response_example :
    (r : Bytes) × (binary_txt_response query 21 (7 ∷ 8 ∷ []) ≡ ok r)
    × (parse ascii r false ≡ ok asked)
parse-binary_txt_response_example =
    parse-binary_txt_response ascii query (7 ∷ 8 ∷ []) asked query-parse

binary_txt_response_fits_example :
    (r : Bytes) × (binary_txt_response query 21 (7 ∷ 8 ∷ 9 ∷ []) ≡ ok r) × (length r ≤ 50)
unfolding data_size
binary_txt_response_fits_example =
    binary_txt_response_fits query (7 ∷ 8 ∷ 9 ∷ []) 21 50 2 (omega arith) (omega arith)
      (omega arith) (omega arith) refl
