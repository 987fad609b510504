-- ===== src/Dns/Question.antt =====
-- parseQuestion, ParseQuestion, ParseReplyQuestion and QuestionName of internal/dnswire/query.go.
-- The loop over the labels takes fuel, one round to a label; `parse_question` gives it one more
-- round than the packet has bytes.
pub mod Spec
mod Rest
pub mod Loop
pub mod Decides
use cotten_router.Prelude.{
  ℕ, zero, suc, ◌+◌, ◌/◌, ◌%◌, Bool, true, false, not, ◌&&◌, ◌||◌, List, [], ◌∷◌, ◌++◌, ltb, leb,
  ◌==◌, if◌then◌else◌, Bytes, length, all, bit, Result, ok, err, no_fuel, ◌>>=◌, byte_at, slice,
  u16_at,
}
use cotten_router.Dns.Text.{Unicode, to_lower, join}

-- ErrShortPacket to ErrUnterminatedName
pub data WireError : Type 0 where
  short_packet not_query not_reply no_question : WireError
  compressed_qname invalid_label unterminated_name : WireError

pub record Question : Type 0 where
  pub name : Bytes
  pub type : ℕ
  pub class : ℕ
  pub end : ℕ

-- A byte that the loop over a label refuses.
abbrev pub bad_byte : ℕ → Bool
bad_byte b = b == 0 || b == b'.'

module _ (u : Unicode) (packet : Bytes) where
  -- the zero length byte: the question ends behind its type and class
  unfoldable pub finish : ℕ → List Bytes → Result WireError Question
  unfolding u16_at byte_at
  finish offset labels =
      if length labels == 0
      then err invalid_label
      else if ltb (length packet) (offset + 4)
      then err short_packet
      else do
        type ← u16_at packet offset
        class ← u16_at packet (offset + 2)
        ok (record {
          name = to_lower u (join labels);
          type = type;
          class = class;
          end = offset + 4;
        })

  -- `for offset := 12; ; { … }`
  unfoldable pub scan : ℕ → ℕ → List Bytes → Result WireError Question
  unfolding finish byte_at slice
  scan zero offset labels = no_fuel
  scan (suc fuel) offset labels =
      let at_end = finish (offset + 1) labels in
      let onward = λ (len : ℕ). (do
        label ← slice packet (offset + 1) (offset + 1 + len)
        let rest = scan fuel (offset + 1 + len) (labels ++ label ∷ [])
        if all (λ b. not (bad_byte b)) label then rest else err invalid_label) in
      if leb (length packet) offset then err unterminated_name else do
        len ← byte_at packet offset
        if len == 0
            then at_end
            else if not (len / 64 % 4 == 0)
            then err compressed_qname
            else if ltb 63 len || ltb (length packet) (offset + 1 + len)
            then err invalid_label
            else onward len

  unfoldable pub parse : Bool → Result WireError Question
  parse must_be_query = if ltb (length packet) 12 then err short_packet else do
    flags ← u16_at packet 2
    questions ← u16_at packet 4
    if must_be_query && not (bit flags 15 == 0)
        then err not_query
        else if not must_be_query && bit flags 15 == 0
        then err not_reply
        else if questions == 0
        then err no_question
        else scan (suc (length packet)) 12 []

-- ParseQuestion and ParseReplyQuestion
abbrev pub parse_question : Unicode → Bytes → Result WireError Question
parse_question u packet = parse u packet true

abbrev pub parse_reply_question : Unicode → Bytes → Result WireError Question
parse_reply_question u packet = parse u packet false
