-- ===== src/Dns/Question/Spec.antt =====
-- What a DNS message with a question looks like on the wire (RFC 1035, 4.1), written from the
-- format and with no reference to the parser.
use cotten_router.Prelude.{
  ℕ, ◌+◌, ◌*◌, ◌≡◌, ◌≢◌, ◌<◌, ◌≤◌, Bool, List, [], ◌∷◌, ◌++◌, if◌then◌else◌, Bytes, length, All,
  bit,
}
use cotten_router.Dns.Text.{Unicode, to_lower, join}
use cotten_router.Dns.Question.{Question}

abbrev pub IsLabel : Bytes → Type 0
IsLabel l = (0 < length l) × (length l ≤ 63) × All (λ b. (b ≢ 0) × (b ≢ b'.')) l

-- Each label behind its length.
abbrev pub encode : List Bytes → Bytes
encode [] = []
encode (l ∷ ls) = length l ∷ (l ++ encode ls)

-- The twelve bytes of a header.
pub record Header : Type 0 where
  pub id_hi : ℕ
  pub id_lo : ℕ
  pub flags_hi : ℕ
  pub flags_lo : ℕ
  pub questions_hi : ℕ
  pub questions_lo : ℕ
  pub answers_hi : ℕ
  pub answers_lo : ℕ
  pub authority_hi : ℕ
  pub authority_lo : ℕ
  pub additional_hi : ℕ
  pub additional_lo : ℕ

abbrev pub message : Header → Bytes → Bytes
message h body =
    h.id_hi ∷ h.id_lo ∷ h.flags_hi ∷ h.flags_lo ∷ h.questions_hi ∷ h.questions_lo ∷ h.answers_hi
    ∷ h.answers_lo ∷ h.authority_hi ∷ h.authority_lo ∷ h.additional_hi ∷ h.additional_lo ∷ body

abbrev pub flags : Header → ℕ
flags h = h.flags_hi * 256 + h.flags_lo

-- The type and class of a question, each of two bytes.
pub record Fields : Type 0 where
  pub type_hi : ℕ
  pub type_lo : ℕ
  pub class_hi : ℕ
  pub class_lo : ℕ

-- A first question and all that stands behind it.
abbrev pub section : List Bytes → Fields → Bytes → Bytes
section ls f rest = encode ls ++ (0 ∷ f.type_hi ∷ f.type_lo ∷ f.class_hi ∷ f.class_lo ∷ rest)

-- The question that the labels and the fields spell, from offset `start`.
abbrev pub spelled : Unicode → ℕ → List Bytes → List Bytes → Fields → Question
spelled u start before ls f = record {
  name = to_lower u (join (before ++ ls));
  type = f.type_hi * 256 + f.type_lo;
  class = f.class_hi * 256 + f.class_lo;
  end = start + length (encode ls) + 5;
}

-- The message is a query, or a reply, whose first question is `q`.
pub record Asks (u : Unicode) (packet : Bytes) (is_query : Bool) (q : Question) : Type 0 where
  pub header : Header
  pub labels : List Bytes
  pub fields : Fields
  pub rest : Bytes
  pub wire : packet ≡ message header (section labels fields rest)
  pub direction : bit (flags header) 15 ≡ (if is_query then 0 else 1)
  pub counted : header.questions_hi * 256 + header.questions_lo ≢ 0
  pub well_formed : All IsLabel labels
  pub named : labels ≢ []
  pub asked : q ≡ spelled u 12 [] labels fields
