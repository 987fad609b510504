-- ===== src/Router/Choice.antt =====
-- How internal/router/table.go and internal/router/tlsrouter.go choose by name: entries with a suffix
-- each are sorted from the longest suffix to the shortest, and the first one that matches is taken.
pub mod Suffix
pub mod Longest
use cotten_router.Prelude.{
  ℕ, zero, suc, ◌+◌, ◌-◌, ◌*◌, ◌/◌, ◌%◌, ◌^◌, ◌≤◌, ◌<◌, ◌≡◌, refl, sym, ap, subst, ◌∙◌, ◌≢◌, ◌↔◌,
  ◌⊎◌, inl, inr, Bool, true, false, not, ◌&&◌, ◌||◌, Option, none, some, List, [], ◌∷◌, ◌++◌, map,
  append_assoc, append-nil, arith, ltb, leb, ltb→lt, lt→ltb, leb→le, le→leb, ==_iff, ◌==◌,
  if◌then◌else◌, Bool-cases, Option-cases, Eq, Bytes, codes, bytes_eq, bytes_eq_iff, length,
  get_elem?, set, take, drop, all, All, length-append, length-take, length-drop, length-set,
  take-append-drop, take-length-append, drop-length-append, drop-drop, Result, ok, err, panic,
  no_fuel, ◌>>=◌, ◌>>◌, reject, or_err, >>=-ok, reject-ok, ok-inj, or_err-ok, byte_at, slice,
  u16_at, byte_at-drop, u16_at-drop, slice-drop, bit, high_byte, low_byte, put_u16, clear_bit,
  set_bit, clear_low, get_or, Assoc, lookup, insert, erase, lookup-insert, lookup-erase,
  length-erase-le, length-erase-lt, length-insert_new, length-insert_old, In, In-append_left,
  In-append_right, All-In, drop-get_or, get_or-length-append, lookup-insert_self, length-insert-le,
  length-erase-lt_of_In, Distinct, insert-Distinct, erase-Distinct, In-lookup, lookup-In, beq-ne,
  lookup-insert_ne, lookup-erase_ne, lookup-erase_self, Bytes_eq, byte_at-ok, u16_at-ok, slice-ok,
  if_cases, if-map, if-congr, nat_eq, count, count-append, erase_absent, count-erase,
  count-insert_new, insert-All, erase-All, lookup-All, All-imp, lookup_bound, AllValues,
  lookup-AllValues, insert-AllValues, erase-AllValues,
}
use cotten_router.Dns.Text.{has_suffix}

-- `name[boundary] == '.'`, read only where `boundary >= 0`
unfoldable pub matches_domain_suffix : Bytes → Bytes → Bool
unfolding has_suffix bytes_eq
matches_domain_suffix name suffix =
    if bytes_eq name suffix
    then true
    else leb (length suffix + 1) (length name)
      && get_or name (length name - length suffix - 1) 0 == b'.'
      && has_suffix name suffix

module _ {A : Type 0} (suffix : A → Bytes) where
  -- sort.Slice by falling length. Go leaves the order of equal lengths open; here they keep theirs.
  unfoldable pub place : A → List A → List A
  place e [] = e ∷ []
  place e (f ∷ fs) =
      if ltb (length (suffix e)) (length (suffix f)) then f ∷ place e fs else e ∷ f ∷ fs

  unfoldable pub sort_entries : List A → List A
  sort_entries [] = []
  sort_entries (e ∷ es) = place e (sort_entries es)

  -- The loop of match, on the name in lower case and with no final dot.
  unfoldable pub first_match : Bytes → List A → Option A
  first_match qname [] = none
  first_match qname (r ∷ rs) =
      if matches_domain_suffix qname (suffix r) then some r else first_match qname rs
