-- ===== src/Router/Greeting.antt =====
-- readTLSClientHello of internal/router/tlsrouter.go: the records of a TLS stream up to the end of the
-- ClientHello. A reader is the list of the bytes that it has yet to give. The loop has one round more
-- than the bytes that it may keep.
pub mod Whole
use cotten_router.Prelude.{
  ℕ, zero, suc, ◌+◌, ◌-◌, ◌*◌, ◌/◌, ◌%◌, ◌^◌, ◌≤◌, ◌<◌, ◌≡◌, refl, sym, ap, subst, ◌∙◌, ◌≢◌, ◌↔◌,
  ◌⊎◌, inl, inr, Bool, true, false, not, ◌&&◌, ◌||◌, Option, none, some, List, [], ◌∷◌, ◌++◌, map,
  append_assoc, append-nil, arith, ltb, leb, ltb→lt, lt→ltb, leb→le, le→leb, ==_iff, ◌==◌,
  if◌then◌else◌, Bool-cases, Option-cases, Eq, Bytes, codes, bytes_eq, bytes_eq_iff, length,
  get_elem?, set, take, drop, all, All, length-append, length-take, length-drop, length-set,
  take-append-drop, take-length-append, drop-length-append, drop-drop, Result, ok, err, panic,
  no_fuel, ◌>>=◌, ◌>>◌, reject, or_err, >>=-ok, reject-ok, ok-inj, or_err-ok, byte_at, slice,
  u16_at, byte_at-drop, u16_at-drop, slice-drop, bit, high_byte, low_byte, put_u16, clear_bit,
  set_bit, clear_low, get_or, Assoc, lookup, insert, erase, lookup-insert, lookup-erase,
  length-erase-le, length-erase-lt, length-insert_new, length-insert_old, In, In-append_left,
  In-append_right, All-In, drop-get_or, get_or-length-append, lookup-insert_self, length-insert-le,
  length-erase-lt_of_In, Distinct, insert-Distinct, erase-Distinct, In-lookup, lookup-In, beq-ne,
  lookup-insert_ne, lookup-erase_ne, lookup-erase_self, Bytes_eq, byte_at-ok, u16_at-ok, slice-ok,
  if_cases, if-map, if-congr, nat_eq, count, count-append, erase_absent, count-erase,
  count-insert_new, insert-All, erase-All, lookup-All, All-imp, lookup_bound, AllValues,
  lookup-AllValues, insert-AllValues, erase-AllValues,
}
use cotten_router.Dns.Text.{Unicode}
use cotten_router.Router.Frame.{IoError, read_full}
use cotten_router.Router.Hello.{HelloError, parse_server_name}

-- `not_tls` is errNotTLS; errNoServerName is among the errors of parseServerName.
pub data GreetingError : Type 0 where
  unreadable : IoError → GreetingError
  not_tls exceeds_limit not_client_hello : GreetingError
  bad_hello : HelloError → GreetingError

-- The results: the bytes to pass on, the server name or the error, and what the reader has left.
pub record Greeting : Type 0 where
  pub initial : Bytes
  pub server_name : Result GreetingError Bytes
  pub rest : Bytes

abbrev pub failed_with : GreetingError → Bytes → Greeting
failed_with e rest = record { initial = []; server_name = err e; rest = rest }

-- `if _, err := io.ReadFull(…); err != nil { return nil, "", err }`
abbrev pub after_read : (Bytes → Bytes → Greeting) → Result IoError Bytes × Bytes → Greeting
after_read k (ok bytes, rest) = k bytes rest
after_read k (err e, rest) = failed_with (unreadable e) rest
after_read k (panic, rest) = record { initial = []; server_name = panic; rest = rest }
after_read k (no_fuel, rest) = record { initial = []; server_name = no_fuel; rest = rest }

-- parseServerName's result as the one of readTLSClientHello
abbrev pub parsed_name : Result HelloError Bytes → Result GreetingError Bytes
parsed_name (ok name) = ok name
parsed_name (err e) = err (bad_hello e)
parsed_name panic = panic
parsed_name no_fuel = no_fuel

abbrev pub record_size : Bytes → ℕ
record_size header = get_or header 3 0 * 256 + get_or header 4 0

abbrev pub handshake_size : Bytes → ℕ
handshake_size handshake =
    get_or handshake 1 0 * 65536 + get_or handshake 2 0 * 256 + get_or handshake 3 0

module _ (u : Unicode) (max_size : ℕ) where
  -- What is done with the bytes of the handshake; `onward` is the next round.
  unfoldable pub with_handshake : Greeting → Bytes → Bytes → Bytes → Greeting
  with_handshake onward rest raw handshake =
      if ltb (length handshake) 4
      then onward
      else if not (get_or handshake 0 0 == 1)
      then failed_with not_client_hello rest
      else if ltb max_size (handshake_size handshake + 4)
      then failed_with exceeds_limit rest
      else if leb (handshake_size handshake + 4) (length handshake)
      then record {
        initial = raw;
        server_name =
            parsed_name (parse_server_name u (take (handshake_size handshake) (drop 4 handshake)));
        rest = rest;
      }
      else onward

  unfoldable pub read_records : ℕ → Bytes → Bytes → Bytes → Greeting
  read_records zero stream raw handshake = record {
    initial = [];
    server_name = no_fuel;
    rest = stream;
  }
  read_records (suc fuel) stream raw handshake =
      let next = λ (s r h : Bytes). read_records fuel s r h in
      after_read
        (λ header rest.
          if not (get_or header 0 0 == 22)
          then record { initial = header; server_name = err not_tls; rest = rest }
          else if ltb (record_size header) 1 || ltb max_size (length raw + 5 + record_size header)
          then failed_with exceeds_limit rest
          else after_read
              (λ body left.
                with_handshake (next left (raw ++ (header ++ body)) (handshake ++ body)) left
                  (raw ++ (header ++ body)) (handshake ++ body))
              (read_full rest (record_size header)))
        (read_full stream 5)

  unfoldable pub read_tls_client_hello : Bytes → Greeting
  read_tls_client_hello stream = read_records (suc max_size) stream [] []
