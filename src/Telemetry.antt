-- ===== src/Telemetry.antt =====
-- internal/telemetry/telemetry.go: the counters of each protocol and route. A method updates its
-- counters atomically, and the calls of different goroutines are taken one after the other. An
-- atomic.Uint64 is a number below 2^64; the signed gauge `active` is kept in two's complement.
pub mod Gauge
use cotten_router.Prelude.{
  ℕ, zero, suc, ◌+◌, ◌-◌, ◌*◌, ◌/◌, ◌%◌, ◌^◌, ◌≤◌, ◌<◌, ◌≡◌, refl, sym, ap, subst, ◌∙◌, ◌≢◌, ◌↔◌,
  ◌⊎◌, inl, inr, Bool, true, false, not, ◌&&◌, ◌||◌, Option, none, some, List, [], ◌∷◌, ◌++◌, map,
  append_assoc, append-nil, arith, ltb, leb, ltb→lt, lt→ltb, leb→le, le→leb, ==_iff, ◌==◌,
  if◌then◌else◌, Bool-cases, Option-cases, Eq, Bytes, codes, bytes_eq, bytes_eq_iff, length,
  get_elem?, set, take, drop, all, All, length-append, length-take, length-drop, length-set,
  take-append-drop, take-length-append, drop-length-append, drop-drop, Result, ok, err, panic,
  no_fuel, ◌>>=◌, byte_at, slice, u16_at, byte_at-drop, u16_at-drop, slice-drop, bit, high_byte,
  low_byte, put_u16, clear_bit, set_bit, clear_low, get_or, Assoc, lookup, insert, erase,
  lookup-insert, lookup-erase, length-erase-le, length-erase-lt, length-insert_new,
  length-insert_old, In, In-append_left, In-append_right, All-In, drop-get_or, get_or-length-append,
  lookup-insert_self, length-insert-le, length-erase-lt_of_In, Distinct, insert-Distinct,
  erase-Distinct, In-lookup, lookup-In, beq-ne, lookup-insert_ne, lookup-erase_ne,
  lookup-erase_self, if_cases, if-map, if-congr, nat_eq, count, count-append, erase_absent,
  count-erase, count-insert_new, insert-All, erase-All, lookup-All, All-imp, lookup_bound,
  AllValues, lookup-AllValues, insert-AllValues, erase-AllValues,
}

pub record Counter : Type 0 where
  pub queries : ℕ
  pub bytes_in : ℕ
  pub bytes_out : ℕ
  pub sessions : ℕ
  pub errors : ℕ
  pub active : ℕ

abbrev pub CounterKey : Type 0
CounterKey = Bytes × Bytes

abbrev pub key_eq : CounterKey → CounterKey → Bool
key_eq (p, r) (q, s) = bytes_eq p q && bytes_eq r s

pub key_eq_iff : (k j : CounterKey) → (key_eq k j ≡ true) ↔ (k ≡ j)
key_eq_iff (p, r) (q, s) = (
  λ h i. ((bytes_eq_iff p q).0 (ground (arith, h)) i, (bytes_eq_iff r s).0 (ground (arith, h)) i),
  λ e.
      let first : bytes_eq p q ≡ true = (bytes_eq_iff p q).1 (ap (λ k. k.0) e) in
      let second : bytes_eq r s ≡ true = (bytes_eq_iff r s).1 (ap (λ k. k.1) e) in
      ground (arith, first, second),
)

instance abbrev pub CounterKey_eq : Eq CounterKey
CounterKey_eq = record { beq = key_eq; beq_iff = key_eq_iff }

pub record Registry : Type 0 where
  pub items : Assoc CounterKey Counter
  pub dropped : ℕ
  pub limited : ℕ

abbrev pub new_registry : Registry
new_registry = record { items = []; dropped = 0; limited = 0 }

abbrev pub new_counter : Counter
new_counter = record {
  queries = 0;
  bytes_in = 0;
  bytes_out = 0;
  sessions = 0;
  errors = 0;
  active = 0;
}

-- c.Add(n) on 64 bits
abbrev pub add : ℕ → ℕ → ℕ
add c n = (c + n) % 2 ^ 64

-- c.Add(-1)
abbrev pub minus_one : ℕ
minus_one = 2 ^ 64 - 1

abbrev pub or_new : Option Counter → Counter
or_new none = new_counter
or_new (some c) = c

-- The counter of a key: the one of the map, or a new one.
unfoldable pub get : Registry → CounterKey → Counter
get r k = or_new (lookup k r.items)

-- Where a method changes the counter that `get` gave, the counter is written back; `get` has put a
-- new one in the map.
abbrev pub put_counter : Registry → CounterKey → Counter → Registry
put_counter r k c = record r { items = insert k c r.items }

-- Ensure
unfoldable pub ensure : Registry → CounterKey → Registry
ensure r k = put_counter r k (get r k)

unfoldable pub query_seen : Registry → CounterKey → ℕ → Registry
query_seen r k size =
    let c = get r k in
    put_counter r k (record c {
      queries = add c.queries 1;
      bytes_in = if ltb 0 size then add c.bytes_in size else c.bytes_in;
    })

unfoldable pub bytes_received : Registry → CounterKey → ℕ → Registry
bytes_received r k size =
    let c = get r k in
    if ltb 0 size then put_counter r k (record c { bytes_in = add c.bytes_in size }) else r

unfoldable pub bytes_sent : Registry → CounterKey → ℕ → Registry
bytes_sent r k size =
    let c = get r k in
    if ltb 0 size then put_counter r k (record c { bytes_out = add c.bytes_out size }) else r

unfoldable pub session_open : Registry → CounterKey → Registry
session_open r k =
    let c = get r k in
    put_counter r k (record c { sessions = add c.sessions 1; active = add c.active 1 })

unfoldable pub session_close : Registry → CounterKey → Registry
session_close r k =
    let c = get r k in put_counter r k (record c { active = add c.active minus_one })

unfoldable pub error_seen : Registry → CounterKey → Registry
error_seen r k = let c = get r k in put_counter r k (record c { errors = add c.errors 1 })

unfoldable pub drop_seen : Registry → Bool → Registry
drop_seen r by_limit = record r {
  dropped = add r.dropped 1;
  limited = if by_limit then add r.limited 1 else r.limited;
}
