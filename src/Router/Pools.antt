-- ===== src/Router/Pools.antt =====
-- The bounded pools and the registered connections of internal/router/server.go: acquireTLSHandshake to
-- releaseTCPClient, and the part of Close that sweeps the connections. A channel that counts is the
-- number of its elements; where a receive from it would wait, there is no result. A connection is a
-- number, and `closed` lists those on which Close has been called. An acquisition is one step, with the
-- times that its calls of the limiter have read.
pub mod Leases
mod Balance
mod Effects
mod Acquired
mod Releases
pub mod Served
pub mod Returned
use cotten_router.Prelude.{
  ℕ, zero, suc, ◌+◌, ◌-◌, ◌*◌, ◌/◌, ◌%◌, ◌^◌, ◌≤◌, ◌<◌, ◌≡◌, refl, sym, ap, subst, ◌∙◌, ◌≢◌, ◌↔◌,
  ◌⊎◌, inl, inr, Bool, true, false, not, ◌&&◌, ◌||◌, Option, none, some, List, [], ◌∷◌, ◌++◌, map,
  append_assoc, append-nil, arith, ltb, leb, ltb→lt, lt→ltb, leb→le, le→leb, ==_iff, ◌==◌,
  if◌then◌else◌, Bool-cases, Option-cases, Eq, Bytes, codes, bytes_eq, bytes_eq_iff, length,
  get_elem?, set, take, drop, all, All, length-append, length-take, length-drop, length-set,
  take-append-drop, take-length-append, drop-length-append, drop-drop, Result, ok, err, panic,
  no_fuel, ◌>>=◌, ◌>>◌, reject, or_err, >>=-ok, reject-ok, ok-inj, or_err-ok, byte_at, slice,
  u16_at, byte_at-drop, u16_at-drop, slice-drop, bit, high_byte, low_byte, put_u16, clear_bit,
  set_bit, clear_low, get_or, Assoc, lookup, insert, erase, lookup-insert, lookup-erase,
  length-erase-le, length-erase-lt, length-insert_new, length-insert_old, In, In-append_left,
  In-append_right, All-In, drop-get_or, get_or-length-append, lookup-insert_self, length-insert-le,
  length-erase-lt_of_In, Distinct, insert-Distinct, erase-Distinct, In-lookup, lookup-In, beq-ne,
  lookup-insert_ne, lookup-erase_ne, lookup-erase_self, Bytes_eq, byte_at-ok, u16_at-ok, slice-ok,
  if_cases, if-map, if-congr, nat_eq, count, count-append, erase_absent, count-erase,
  count-insert_new, insert-All, erase-All, lookup-All, All-imp, lookup_bound, AllValues,
  lookup-AllValues, insert-AllValues, erase-AllValues,
}
use cotten_router.Guard.Address.{Addr}
use cotten_router.Guard.Limiter.{Limiter}
use cotten_router.Guard.Connections.{acquire_tcp, release_tcp, acquire_tls, release_tls}
use cotten_router.Router.Tls.{tls_capacity_class}

pub record Pools : Type 0 where
  pub guard : Limiter
  pub tcp_held : ℕ
  pub handshake_held : ℕ
  pub tls_held : Assoc Bytes ℕ
  pub connections : Assoc ℕ (Unit {0})
  pub is_done : Bool
  pub closed : List ℕ

-- `case c <- struct{}{}` with a default: `none` where the channel is full.
unfoldable pub put_token : ℕ → ℕ → Option ℕ
put_token size held = if ltb held size then some (held + 1) else none

-- `<-c`: `none` where it waits.
unfoldable pub take_token : ℕ → Option ℕ
take_token zero = none
take_token (suc held) = some held

-- `s.connections[conn] = struct{}{}`, unless the server is closing.
unfoldable pub track_connection : Pools → ℕ → Pools × Bool
track_connection p conn =
    if p.is_done
    then (p, false)
    else (record p { connections = insert conn tt p.connections }, true)

unfoldable pub untrack_connection : Pools → ℕ → Pools
untrack_connection p conn = record p {
  closed = conn ∷ p.closed;
  connections = erase conn p.connections;
}

-- The end of each acquisition: the connection is registered, or its lease `back` is given back.
abbrev pub or_give_back : Pools → Pools × Bool → Pools × Bool
or_give_back back (p, true) = (p, true)
or_give_back back (p, false) = (back, false)

unfoldable pub ensure_tls_capacity : Pools → Bytes → Pools
ensure_tls_capacity p protocol =
    let class = tls_capacity_class protocol in
    elim (lookup class p.tls_held) [
      | some held ↦ p
      | none ↦ record p { tls_held = insert class 0 p.tls_held }
    ]

-- `size` is the channel's capacity.
unfoldable pub acquire_tcp_client : ℕ → Pools → ℕ → Addr → ℕ → ℕ → Pools × Bool
acquire_tcp_client size p conn address now later =
    let (g, allowed) = acquire_tcp p.guard address now in
    let refused = record p { guard = release_tcp g address later } in
    if not allowed then (record p { guard = g }, false) else elim (put_token size p.tcp_held) [
      | none ↦ (refused, false)
      | some held ↦
          or_give_back (record refused { closed = conn ∷ p.closed })
            (track_connection (record p { guard = g; tcp_held = held }) conn)
    ]

unfoldable pub release_tcp_client : Pools → ℕ → Addr → ℕ → Option Pools
release_tcp_client p conn address now = elim (take_token p.tcp_held) [
  | none ↦ none
  | some held ↦ some (record (untrack_connection p conn) {
    tcp_held = held;
    guard = release_tcp p.guard address now;
  })
]

unfoldable pub acquire_tls_handshake : ℕ → Pools → ℕ → Addr → ℕ → ℕ → Pools × Bool
acquire_tls_handshake size p conn address now later =
    let (g, allowed) = acquire_tls p.guard address (codes "handshake") now in
    let refused = record p { guard = release_tls g address (codes "handshake") later } in
    if not allowed
    then (record p { guard = g }, false)
    else elim (put_token size p.handshake_held) [
      | none ↦ (refused, false)
      | some held ↦
          or_give_back refused
            (track_connection (record p { guard = g; handshake_held = held }) conn)
    ]

unfoldable pub release_tls_handshake_lease : Pools → Addr → ℕ → Option Pools
release_tls_handshake_lease p address now = elim (take_token p.handshake_held) [
  | none ↦ none
  | some held ↦ some (record p {
    handshake_held = held;
    guard = release_tls p.guard address (codes "handshake") now;
  })
]

unfoldable pub release_tls_handshake : Pools → ℕ → Addr → ℕ → Option Pools
release_tls_handshake p conn address now = elim (release_tls_handshake_lease p address now) [
  | none ↦ none
  | some q ↦ some (untrack_connection q conn)
]

unfoldable pub acquire_tls_protocol : ℕ → Pools → Addr → Bytes → ℕ → ℕ → Pools × Bool
acquire_tls_protocol size p address protocol now later =
    let class = tls_capacity_class protocol in
    let (g, allowed) = acquire_tls p.guard address class now in
    let refused = record p { guard = release_tls g address class later } in
    if not allowed then (record p { guard = g }, false) else elim (lookup class p.tls_held) [
      | none ↦ (refused, false)
      | some held ↦ elim (put_token size held) [
        | none ↦ (refused, false)
        | some more ↦ (record p { guard = g; tls_held = insert class more p.tls_held }, true)
      ]
    ]

-- A receive from the nil channel of an unknown class waits for ever.
unfoldable pub release_tls_protocol : Pools → ℕ → Addr → Bytes → ℕ → Option Pools
release_tls_protocol p conn address protocol now =
    let class = tls_capacity_class protocol in
    elim (lookup class p.tls_held) [
      | none ↦ none
      | some held ↦ elim (take_token held) [
        | none ↦ none
        | some less ↦ some (record (untrack_connection p conn) {
          tls_held = insert class less p.tls_held;
          guard = release_tls p.guard address class now;
        })
      ]
    ]

-- The keys of the map.
abbrev pub keys : Assoc ℕ (Unit {0}) → List ℕ
keys [] = []
keys ((conn, _) ∷ m) = conn ∷ keys m

-- Close: `close(s.done)`, and later the sweep of the connections under the mutex.
unfoldable pub begin_close : Pools → Pools
begin_close p = record p { is_done = true }

unfoldable pub sweep_connections : Pools → Pools
sweep_connections p = record p { closed = keys p.connections ++ p.closed }

-- The pools that New makes: those of the five classes, and then those of the protocols of its TLS
-- listeners.
unfoldable pub ensure_all : Pools → List Bytes → Pools
ensure_all p [] = p
ensure_all p (protocol ∷ protocols) = ensure_all (ensure_tls_capacity p protocol) protocols

abbrev pub tls_classes : List Bytes
tls_classes =
    codes "doh" ∷ codes "dot" ∷ codes "naiveproxy" ∷ codes "stuntls" ∷ codes "tls/other" ∷ []

abbrev pub no_pools : Limiter → Pools
no_pools guard = record {
  guard = guard;
  tcp_held = 0;
  handshake_held = 0;
  tls_held = [];
  connections = [];
  is_done = false;
  closed = [];
}

unfoldable pub new_pools : Limiter → List Bytes → Pools
new_pools guard protocols = ensure_all (ensure_all (no_pools guard) tls_classes) protocols
