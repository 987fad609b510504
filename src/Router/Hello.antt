-- ===== src/Router/Hello.antt =====
-- parseServerName and parseServerNameExtension of internal/router/tlsrouter.go: the server name that
-- a TLS ClientHello asks for. Each loop has one round more than its bytes.
pub mod Total
use cotten_router.Prelude.{
  ℕ, zero, suc, ◌+◌, ◌-◌, ◌*◌, ◌/◌, ◌%◌, ◌^◌, ◌≤◌, ◌<◌, ◌≡◌, refl, sym, ap, subst, ◌∙◌, ◌≢◌, ◌↔◌,
  ◌⊎◌, inl, inr, Bool, true, false, not, ◌&&◌, ◌||◌, Option, none, some, List, [], ◌∷◌, ◌++◌, map,
  append_assoc, append-nil, arith, ltb, leb, ltb→lt, lt→ltb, leb→le, le→leb, ==_iff, ◌==◌,
  if◌then◌else◌, Bool-cases, Option-cases, Eq, Bytes, codes, bytes_eq, bytes_eq_iff, length,
  get_elem?, set, take, drop, all, All, length-append, length-take, length-drop, length-set,
  take-append-drop, take-length-append, drop-length-append, drop-drop, Result, ok, err, panic,
  no_fuel, ◌>>=◌, byte_at, slice, u16_at, byte_at-drop, u16_at-drop, slice-drop, bit, high_byte,
  low_byte, put_u16, clear_bit, set_bit, clear_low, get_or, Assoc, lookup, insert, erase,
  lookup-insert, lookup-erase, length-erase-le, length-erase-lt, length-insert_new,
  length-insert_old, In, In-append_left, In-append_right, All-In, drop-get_or, get_or-length-append,
  lookup-insert_self, length-insert-le, length-erase-lt_of_In, Distinct, insert-Distinct,
  erase-Distinct, In-lookup, lookup-In, beq-ne, lookup-insert_ne, lookup-erase_ne,
  lookup-erase_self, byte_at-ok, u16_at-ok, slice-ok, if_cases, if-map, if-congr, nat_eq, count,
  count-append, erase_absent, count-erase, count-insert_new, insert-All, erase-All, lookup-All,
  All-imp, lookup_bound, AllValues, lookup-AllValues, insert-AllValues, erase-AllValues,
}
use cotten_router.Dns.Text.{Unicode, to_lower}

-- io.ErrUnexpectedEOF and errNoServerName
pub data HelloError : Type 0 where
  truncated no_server_name : HelloError

module _ (u : Unicode) (extension : Bytes) where
  unfoldable pub scan_names : ℕ → ℕ → ℕ → Result HelloError Bytes
  scan_names zero offset end = no_fuel
  scan_names (suc fuel) offset end =
      let onward = λ (size : ℕ). scan_names fuel (offset + 3 + size) end in
      if ltb end (offset + 3) then err no_server_name else do
        type ← byte_at extension offset
        size ← u16_at extension (offset + 1)
        if ltb end (offset + 3 + size)
            then err truncated
            else if type == 0 && ltb 0 size
            then (do name ← slice extension (offset + 3) (offset + 3 + size); ok (to_lower u name))
            else onward size

  unfoldable pub parse_server_name_extension : Result HelloError Bytes
  parse_server_name_extension = if ltb (length extension) 2 then err truncated else do
    size ← u16_at extension 0
    if ltb (length extension) (2 + size)
        then err truncated
        else scan_names (suc (length extension)) 2 (2 + size)

module _ (u : Unicode) (hello : Bytes) where
  unfoldable pub scan_extensions : ℕ → ℕ → ℕ → Result HelloError Bytes
  scan_extensions zero offset end = no_fuel
  scan_extensions (suc fuel) offset end =
      let onward = λ (size : ℕ). scan_extensions fuel (offset + 4 + size) end in
      if ltb end (offset + 4) then err no_server_name else do
        type ← u16_at hello offset
        size ← u16_at hello (offset + 2)
        if ltb end (offset + 4 + size)
            then err truncated
            else if type == 0
            then (do
              extension ← slice hello (offset + 4) (offset + 4 + size)
              parse_server_name_extension u extension)
            else onward size

  -- From the size of the extensions on.
  unfoldable pub parse_extensions : ℕ → Result HelloError Bytes
  parse_extensions offset = if ltb (length hello) (offset + 2) then err no_server_name else do
    size ← u16_at hello offset
    if ltb (length hello) (offset + 2 + size)
        then err truncated
        else scan_extensions (suc (length hello)) (offset + 2) (offset + 2 + size)

  -- From the size of the cipher suites on.
  unfoldable pub parse_ciphers : ℕ → Result HelloError Bytes
  parse_ciphers offset = if ltb (length hello) (offset + 2) then err truncated else do
    size ← u16_at hello offset
    if leb (length hello) (offset + 2 + size) then err truncated else do
      compression ← byte_at hello (offset + 2 + size)
      parse_extensions (offset + 2 + size + 1 + compression)

  unfoldable pub parse_server_name : Result HelloError Bytes
  parse_server_name =
      if leb (length hello) 34
      then err truncated
      else do session ← byte_at hello 34; parse_ciphers (35 + session)
