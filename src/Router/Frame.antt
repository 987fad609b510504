-- ===== src/Router/Frame.antt =====
-- The framing of DNS over TCP in internal/router/server.go: readTCPMessage, writeFramedDNS and
-- writeAll. A reader is the list of the bytes that it has yet to give before its end.
mod Sent
pub mod Wire
use cotten_router.Prelude.{
  ℕ, zero, suc, ◌+◌, ◌-◌, ◌*◌, ◌/◌, ◌%◌, ◌^◌, ◌≤◌, ◌<◌, ◌≡◌, refl, sym, ap, subst, ◌∙◌, ◌≢◌, ◌↔◌,
  ◌⊎◌, inl, inr, Bool, true, false, not, ◌&&◌, ◌||◌, Option, none, some, List, [], ◌∷◌, ◌++◌, map,
  append_assoc, append-nil, arith, ltb, leb, ltb→lt, lt→ltb, leb→le, le→leb, ==_iff, ◌==◌,
  if◌then◌else◌, Bool-cases, Option-cases, Eq, Bytes, codes, bytes_eq, bytes_eq_iff, length,
  get_elem?, set, take, drop, all, All, length-append, length-take, length-drop, length-set,
  take-append-drop, take-length-append, drop-length-append, drop-drop, Result, ok, err, panic,
  no_fuel, ◌>>=◌, byte_at, slice, u16_at, byte_at-drop, u16_at-drop, slice-drop, bit, high_byte,
  low_byte, put_u16, clear_bit, set_bit, clear_low, get_or, Assoc, lookup, insert, erase,
  lookup-insert, lookup-erase, length-erase-le, length-erase-lt, length-insert_new,
  length-insert_old, In, In-append_left, In-append_right, All-In, drop-get_or, get_or-length-append,
  lookup-insert_self, length-insert-le, length-erase-lt_of_In, Distinct, insert-Distinct,
  erase-Distinct, In-lookup, lookup-In, beq-ne, lookup-insert_ne, lookup-erase_ne,
  lookup-erase_self, if_cases, if-map, if-congr, nat_eq, count, count-append, erase_absent,
  count-erase, count-insert_new, insert-All, erase-All, lookup-All, All-imp, lookup_bound,
  AllValues, lookup-AllValues, insert-AllValues, erase-AllValues,
}

pub data IoError : Type 0 where
  eof unexpected_eof write_failed : IoError
  invalid_size : ℕ → IoError

-- io.ReadFull: the bytes, and what the reader has left.
unfoldable pub read_full : Bytes → ℕ → Result IoError Bytes × Bytes
read_full stream n =
    if leb n (length stream)
    then (ok (take n stream), drop n stream)
    else (err (if length stream == 0 then eof else unexpected_eof), [])

-- What readTCPMessage does behind the two bytes of the size.
unfoldable pub read_body : ℕ → Result IoError Bytes × Bytes → Result IoError Bytes × Bytes
read_body max_size (ok prefix, rest) =
    let size = get_or prefix 0 0 * 256 + get_or prefix 1 0 in
    if ltb size 12 || ltb max_size size
    then (err (invalid_size size), rest)
    else read_full rest size
read_body max_size (err e, rest) = (err e, rest)
read_body max_size (panic, rest) = (panic, rest)
read_body max_size (no_fuel, rest) = (no_fuel, rest)

unfoldable pub read_tcp_message : Bytes → ℕ → Result IoError Bytes × Bytes
read_tcp_message stream max_size = read_body max_size (read_full stream 2)

-- What one call of Write does: it takes n bytes, or takes n bytes and fails.
pub data WriteCall : Type 0 where
  wrote failed : ℕ → WriteCall

-- writeAll: the calls that are left, or how it failed, and the bytes that have been sent. Where the
-- calls run out, the model has no answer.
unfoldable pub write_all : List WriteCall → Bytes → Result IoError (List WriteCall) × Bytes
write_all calls [] = (ok calls, [])
write_all [] (b ∷ d) = (no_fuel, [])
write_all (failed n ∷ calls) (b ∷ d) = (err write_failed, take n (b ∷ d))
write_all (wrote n ∷ calls) (b ∷ d) =
    let (r, sent) = write_all calls (drop n (b ∷ d)) in
    if n == 0
    then (err unexpected_eof, [])
    else if ltb (length (b ∷ d)) n
    then (panic, b ∷ d)
    else (r, take n (b ∷ d) ++ sent)

abbrev pub size_prefix : Bytes → Bytes
size_prefix packet = high_byte (length packet) ∷ low_byte (length packet) ∷ []

abbrev pub then_write :
    Bytes → Result IoError (List WriteCall) × Bytes → Result IoError (List WriteCall) × Bytes
then_write packet (ok calls, sent) = let (r, more) = write_all calls packet in (r, sent ++ more)
then_write packet (r, sent) = (r, sent)

unfoldable pub write_framed : List WriteCall → Bytes → Result IoError (List WriteCall) × Bytes
write_framed calls packet = then_write packet (write_all calls (size_prefix packet))
