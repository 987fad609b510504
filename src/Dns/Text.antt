-- ===== src/Dns/Text.antt =====
-- The calls of Go's `strings` that the router makes on names, over byte strings, and
-- `NormalizeDomain` of internal/dnswire/query.go.
use cotten_router.Prelude.{
  ℕ, ◌+◌, ◌-◌, Bool, not, ◌&&◌, ◌||◌, List, [], ◌∷◌, ◌++◌, map, Option, none, some, ltb, leb, ◌==◌,
  if◌then◌else◌, Bytes, length, take, drop, all, bytes_eq,
}

-- What `strings` does on text that is not ASCII depends on the Unicode tables.
pub record Unicode : Type 0 where
  pub lower : Bytes → Bytes
  pub trim : Bytes → Bytes

abbrev pub is_ascii : Bytes → Bool
is_ascii = all (λ b. ltb b 128)

abbrev pub lower_byte : ℕ → ℕ
lower_byte c = if leb b'A' c && leb c b'Z' then c + 32 else c

-- strings.ToLower
unfoldable pub to_lower : Unicode → Bytes → Bytes
to_lower u s = if is_ascii s then map lower_byte s else u.lower s

-- asciiSpace of the package strings: \t \n \v \f \r and the blank.
abbrev pub is_space : ℕ → Bool
is_space c = c == 32 || (leb 9 c && leb c 13)

unfoldable pub trim_left : Bytes → Bytes
trim_left [] = []
trim_left (c ∷ s) = let rest = trim_left s in if is_space c then rest else c ∷ s

unfoldable pub trim_right : Bytes → Bytes
trim_right [] = []
trim_right (c ∷ s) = elim (trim_right s) [
  | [] ↦ if is_space c then [] else c ∷ []
  | d ∷ r ↦ c ∷ d ∷ r
]

-- strings.TrimSpace
unfoldable pub trim_space : Unicode → Bytes → Bytes
unfolding trim_left trim_right
trim_space u s = if is_ascii s then trim_right (trim_left s) else u.trim s

-- strings.HasSuffix
unfoldable pub has_suffix : Bytes → Bytes → Bool
unfolding bytes_eq
has_suffix s suffix =
    leb (length suffix) (length s) && bytes_eq (drop (length s - length suffix) s) suffix

-- strings.TrimSuffix
unfoldable pub trim_suffix : Bytes → Bytes → Bytes
unfolding has_suffix
trim_suffix s suffix = if has_suffix s suffix then take (length s - length suffix) s else s

-- strings.HasPrefix and strings.TrimPrefix
unfoldable pub trim_prefix : Bytes → Bytes → Bytes
unfolding bytes_eq
trim_prefix s prefix =
    if leb (length prefix) (length s) && bytes_eq (take (length prefix) s) prefix
    then drop (length prefix) s
    else s

-- strings.Join with a dot
unfoldable pub join : List Bytes → Bytes
join [] = []
join (l ∷ ls) = elim ls [ [] ↦ l | k ∷ ks ↦ l ++ b'.' ∷ join ls ]

-- strings.Split at a dot
unfoldable pub split : Bytes → List Bytes
split [] = [] ∷ []
split (c ∷ s) =
    if c == b'.'
    then [] ∷ split s
    else elim (split s) [ [] ↦ (c ∷ []) ∷ [] | p ∷ ps ↦ (c ∷ p) ∷ ps ]

abbrev fits_label : Bytes → Bool
fits_label l = not (leb (length l) 0 || ltb 63 (length l))

-- NormalizeDomain; `none` is its one error.
unfoldable pub normalize_domain : Unicode → Bytes → Option Bytes
unfolding to_lower trim_space trim_suffix split
normalize_domain u domain =
    let name = to_lower u (trim_space u (trim_suffix domain (b'.' ∷ []))) in
    if length name == 0 || ltb 253 (length name)
    then none
    else if all fits_label (split name)
    then some name
    else none
