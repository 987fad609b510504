-- ===== src/Router/Verify.antt =====
-- internal/router/verify.go: the replies to probes of reachability and packet size. HMAC-SHA256, the
-- decoder of base32 and the source of random bytes are the parameters `Crypto`. In the results here
-- `err tt` is the early return without a value: -1, 0, or `nil, false`.
pub mod Edns
pub mod Txt
pub mod Size
use cotten_router.Prelude.{
  ℕ, zero, suc, ◌+◌, ◌-◌, ◌*◌, ◌/◌, ◌%◌, ◌^◌, ◌≤◌, ◌<◌, ◌≡◌, refl, sym, ap, subst, ◌∙◌, ◌≢◌, ◌↔◌,
  ◌⊎◌, inl, inr, Bool, true, false, not, ◌&&◌, ◌||◌, Option, none, some, List, [], ◌∷◌, ◌++◌, map,
  append_assoc, append-nil, arith, ltb, leb, ltb→lt, lt→ltb, leb→le, le→leb, ==_iff, ◌==◌,
  if◌then◌else◌, Bool-cases, Option-cases, Eq, Bytes, codes, bytes_eq, bytes_eq_iff, length,
  get_elem?, set, take, drop, all, All, length-append, length-take, length-drop, length-set,
  take-append-drop, take-length-append, drop-length-append, drop-drop, Result, ok, err, panic,
  no_fuel, ◌>>=◌, byte_at, slice, u16_at, byte_at-drop, u16_at-drop, slice-drop, bit, high_byte,
  low_byte, put_u16, clear_bit, set_bit, clear_low, get_or, Assoc, lookup, insert, erase,
  lookup-insert, lookup-erase, length-erase-le, length-erase-lt, length-insert_new,
  length-insert_old, In, In-append_left, In-append_right, All-In, drop-get_or, get_or-length-append,
  lookup-insert_self, length-insert-le, length-erase-lt_of_In, Distinct, insert-Distinct,
  erase-Distinct, In-lookup, lookup-In, beq-ne, lookup-insert_ne, lookup-erase_ne,
  lookup-erase_self, if_cases, if-map, if-congr, nat_eq, count, count-append, erase_absent,
  count-erase, count-insert_new, insert-All, erase-All, lookup-All, All-imp, lookup_bound,
  AllValues, lookup-AllValues, insert-AllValues, erase-AllValues,
}
use cotten_router.Dns.Text.{Unicode, has_suffix, trim_suffix}
use cotten_router.Dns.Question.{WireError, Question, parse_question}
use cotten_router.Router.Table.{RouteEntry}

abbrev pub Outcome : Type 0 → Type 0
Outcome A = Result (Unit {0}) A

module _ (packet : Bytes) where
  -- The loop of skipDNSName, one round to a label.
  unfoldable pub skip_labels : ℕ → ℕ → Outcome ℕ
  skip_labels zero offset = no_fuel
  skip_labels (suc fuel) offset =
      let onward = λ (len : ℕ). skip_labels fuel (offset + 1 + len) in
      if leb (length packet) offset then err tt else do
        len ← byte_at packet offset
        if len == 0
            then ok (offset + 1)
            else if len / 64 % 4 == 3
            then (if leb (length packet) (offset + 1) then err tt else ok (offset + 2))
            else if ltb 63 len || ltb (length packet) (offset + 1 + len)
            then err tt
            else onward len

  unfoldable pub skip_dns_name : ℕ → Outcome ℕ
  skip_dns_name offset = skip_labels (suc (length packet)) offset

  -- The loop of ednsPayloadSize over the answers and the authority.
  unfoldable pub skip_records : ℕ → ℕ → Outcome ℕ
  skip_records zero offset = ok offset
  skip_records (suc n) offset = do
    at ← skip_dns_name offset
    if ltb (length packet) (at + 10)
        then err tt
        else do len ← u16_at packet (at + 8); skip_records n (at + 10 + len)

  -- The loop over the additional records, for the one of type OPT.
  unfoldable pub find_opt : ℕ → ℕ → Outcome ℕ
  find_opt zero offset = err tt
  find_opt (suc n) offset = do
    at ← skip_dns_name offset
    if ltb (length packet) (at + 10) then err tt else do
      type ← u16_at packet at
      size ← u16_at packet (at + 2)
      len ← u16_at packet (at + 8)
      let rest = find_opt n (at + 10 + len)
      if type == 41 then ok size else rest

  abbrev pub or_zero : Outcome ℕ → Outcome ℕ
  or_zero (err e) = ok 0
  or_zero r = r

  unfoldable pub edns_payload_size : ℕ → Outcome ℕ
  edns_payload_size offset = or_zero (do
    answers ← u16_at packet 6
    authority ← u16_at packet 8
    at ← skip_records (answers + authority) offset
    additional ← u16_at packet 10
    find_opt additional at)

-- Character strings of at most 255 bytes, each behind its length.
unfoldable pub strings : ℕ → Bytes → Bytes
strings zero content = []
strings (suc fuel) [] = []
strings (suc fuel) (b ∷ content) =
    let n = length (b ∷ content) in
    let size = if ltb 255 n then 255 else n in
    size ∷ (take size (b ∷ content) ++ strings fuel (drop size (b ∷ content)))

-- The bytes that binaryTXTResponse appends.
abbrev pub assembled : ℕ → ℕ → Bytes → Bytes → Bytes
assembled first second question rdata =
    first
    ∷ second
    ∷ 0x84
    ∷ 0
    ∷ 0
    ∷ 1
    ∷ 0
    ∷ 1
    ∷ 0
    ∷ 0
    ∷ 0
    ∷ 1
    ∷ (question
        ++ (0xc0
            ∷ 0x0c
            ∷ 0
            ∷ 16
            ∷ 0
            ∷ 1
            ∷ 0
            ∷ 0
            ∷ 0
            ∷ 60
            ∷ high_byte (length rdata)
            ∷ low_byte (length rdata)
            ∷ (rdata ++ (0 ∷ 0 ∷ 41 ∷ 0x10 ∷ 0 ∷ 0 ∷ 0 ∷ 0 ∷ 0 ∷ 0 ∷ 0 ∷ []))))

-- binaryTXTResponse; a round of its loop takes a byte at least.
unfoldable pub binary_txt_response : Bytes → ℕ → Bytes → Outcome Bytes
binary_txt_response query question_end content = do
  first ← byte_at query 0
  second ← byte_at query 1
  question ← slice query 12 question_end
  ok (assembled first second question (strings (length content) content))

abbrev pub is_probe_size : ℕ → Bool
is_probe_size n = leb 200 n && leb n 4096

-- The size that the reply is to have.
unfoldable pub target_size : ℕ → ℕ → ℕ → ℕ → ℕ
target_size verify_mtu requested advertised max_packet_size =
    let configured = if verify_mtu == 0 then 1232 else verify_mtu in
    let target =
      if is_probe_size requested
      then requested
      else if is_probe_size advertised
      then advertised
      else configured in
    if ltb max_packet_size target then max_packet_size else target

-- The bytes of data that fit. Where the source goes below 0 it ends in the size of the payload, and
-- so does this.
unfoldable pub data_size : ℕ → ℕ → ℕ → ℕ
data_size target question_end payload =
    let room = target - question_end - 25 in
    let size = room - (room / 256 + 1) in if ltb size payload then payload else size

-- crypto/hmac with SHA-256, base32 and crypto/rand.
pub record Crypto : Type 0 where
  pub mac : Bytes → Bytes → Bytes
  pub decode : Bytes → Option Bytes
  pub random : ℕ → Bytes

abbrev pub or_unverified {ℓ} : {E : Type 0} {A : Type ℓ} → Result E A → Result (Unit {0}) A
or_unverified (ok a) = ok a
or_unverified (err e) = err tt
or_unverified panic = panic
or_unverified no_fuel = no_fuel

-- strings.ReplaceAll(name, ".", "")
unfoldable pub without_dots : Bytes → Bytes
without_dots [] = []
without_dots (b ∷ s) = let rest = without_dots s in if b == b'.' then rest else b ∷ rest

-- The reply to a probe whose proof holds. The source looks for the advertised size only where the
-- requested one is no probe size.
unfoldable pub verified_reply : Crypto → Bytes → RouteEntry → ℕ → Question → Bytes → Outcome Bytes
verified_reply c packet route max_packet_size question nonce = do
  requested ← u16_at nonce 14
  advertised ← edns_payload_size packet question.end
  let payload = c.mac route.verify_key (nonce ++ 1 ∷ [])
  let target = target_size route.verify_mtu requested advertised max_packet_size
  let size = data_size target question.end (length payload)
  binary_txt_response packet question.end (payload ++ c.random (size - length payload))

-- The decoded name: a nonce and its proof of 16 bytes each.
unfoldable pub check_proof : Crypto → Bytes → RouteEntry → ℕ → Question → Bytes → Outcome Bytes
check_proof c packet route max_packet_size question decoded =
    let nonce = take 16 decoded in
    let proof = take 16 (drop 16 decoded) in
    if ltb (length decoded) 32
    then err tt
    else if not (bytes_eq proof (take 16 (c.mac route.verify_key nonce)))
    then err tt
    else verified_reply c packet route max_packet_size question nonce

-- verificationResponse
unfoldable pub verification_response : Crypto → Unicode → Bytes → RouteEntry → ℕ → Outcome Bytes
verification_response c u packet route max_packet_size =
    if length route.verify_key == 0 then err tt else do
      count ← u16_at packet 4
      question ← or_unverified (parse_question u packet)
      let suffix = b'.' ∷ route.domain
      let encoded = without_dots (trim_suffix question.name suffix)
      if not (count == 1)
          then err tt
          else if not (question.type == 16 && question.class == 1)
          then err tt
          else if not (has_suffix question.name suffix)
          then err tt
          else elim (c.decode encoded) [
            | none ↦ err tt
            | some decoded ↦ check_proof c packet route max_packet_size question decoded
          ]
