-- ===== src/Router/Backend.antt =====
-- The type `backendConn` of internal/router/server.go and its methods: one connected UDP socket to a
-- backend, with the queries that wait for a reply on it. A method runs under the mutex, so it is one
-- function from the state to the state. The socket itself is not part of the state.
pub mod Ledger
mod Expiry
pub mod Account
pub mod Replies
pub mod Sessions
pub mod Active
use cotten_router.Prelude.{
  ℕ, zero, suc, ◌+◌, ◌-◌, ◌*◌, ◌/◌, ◌%◌, ◌^◌, ◌≤◌, ◌<◌, ◌≡◌, refl, sym, ap, subst, ◌∙◌, ◌≢◌, ◌↔◌,
  ◌⊎◌, inl, inr, Bool, true, false, not, ◌&&◌, ◌||◌, Option, none, some, List, [], ◌∷◌, ◌++◌, map,
  append_assoc, append-nil, arith, ltb, leb, ltb→lt, lt→ltb, leb→le, le→leb, ==_iff, ◌==◌,
  if◌then◌else◌, Bool-cases, Option-cases, Eq, Bytes, codes, bytes_eq, bytes_eq_iff, length,
  get_elem?, set, take, drop, all, All, length-append, length-take, length-drop, length-set,
  take-append-drop, take-length-append, drop-length-append, drop-drop, Result, ok, err, panic,
  no_fuel, ◌>>=◌, byte_at, slice, u16_at, byte_at-drop, u16_at-drop, slice-drop, bit, high_byte,
  low_byte, put_u16, clear_bit, set_bit, clear_low, get_or, Assoc, lookup, insert, erase,
  lookup-insert, lookup-erase, length-erase-le, length-erase-lt, length-insert_new,
  length-insert_old, In, In-append_left, In-append_right, All-In, drop-get_or, get_or-length-append,
  lookup-insert_self, length-insert-le, length-erase-lt_of_In, Distinct, insert-Distinct,
  erase-Distinct, In-lookup, lookup-In, beq-ne, lookup-insert_ne, lookup-erase_ne,
  lookup-erase_self, nat_eq, count, count-append, erase_absent, count-erase, count-insert_new,
  insert-All, erase-All, lookup-All, All-imp, lookup_bound, AllValues, lookup-AllValues,
  insert-AllValues, erase-AllValues,
}
use cotten_router.Dns.Question.{Question}
use cotten_router.Guard.Address.{Addr}
use cotten_router.Guard.Limiter.{second}

-- The type `pendingQuery`. `response` is the channel of a query bridged from TCP, as a number that
-- tells channels apart, and `none` where it is nil.
pub record PendingQuery : Type 0 where
  pub client_addr : Addr × ℕ
  pub client_id : ℕ
  pub expires_at : ℕ
  pub route : Bytes
  pub question : Question
  pub response : Option ℕ

-- pendingQuery.protocol
unfoldable pub query_protocol : PendingQuery → Bytes
query_protocol q = elim q.response [ none ↦ codes "dns/udp" | some _ ↦ codes "dns/tcp" ]

-- pendingQuery.matches
unfoldable pub matches_question : PendingQuery → Question → Bool
matches_question q reply =
    bytes_eq q.question.name reply.name
    && q.question.type == reply.type
    && q.question.class == reply.class

-- The type `backendConn`. `is_done` says that the channel `done` is closed, which happens once;
-- `retire_at` is `none` where it is the zero time.
pub record BackendConn : Type 0 where
  pub address : Bytes
  pub pending : Assoc ℕ PendingQuery
  pub issued : ℕ
  pub retire_at : Option ℕ
  pub is_done : Bool

-- The backend that newBackendLocked makes.
abbrev pub new_backend : Bytes → BackendConn
new_backend address = record {
  address = address;
  pending = [];
  issued = 0;
  retire_at = none;
  is_done = false;
}

-- The three results of reserve: an identifier, `exhausted`, and neither.
pub data Reservation : Type 0 where
  reserved : ℕ → Reservation
  refused exhausted : Reservation

unfoldable pub reserve : BackendConn → PendingQuery → ℕ → BackendConn × Reservation
reserve b query limit =
    let id = b.issued % 2 ^ 16 in
    if b.is_done
    then (b, refused)
    else if leb (2 ^ 16) b.issued
    then (b, exhausted)
    else if leb limit (length b.pending)
    then (b, refused)
    else (record b { issued = b.issued + 1; pending = insert id query b.pending }, reserved id)

unfoldable pub take_reply : BackendConn → ℕ → Question → BackendConn × Option PendingQuery
take_reply b id reply = elim (lookup id b.pending) [
  | none ↦ (b, none)
  | some query ↦
      if matches_question query reply
      then (record b { pending = erase id b.pending }, some query)
      else (b, none)
]

-- The deferred call at the end of exchangeTCPViaUDP, and the entry that it found.
unfoldable pub abandon : BackendConn → ℕ → BackendConn × Option PendingQuery
abandon b id = (record b { pending = erase id b.pending }, lookup id b.pending)

-- The queries that a tick of expirePending leaves, and those that it deletes.
unfoldable pub unexpired : ℕ → Assoc ℕ PendingQuery → Assoc ℕ PendingQuery
unexpired now [] = []
unexpired now ((id, query) ∷ m) =
    let rest = unexpired now m in if ltb now query.expires_at then (id, query) ∷ rest else rest

unfoldable pub expired : ℕ → Assoc ℕ PendingQuery → Assoc ℕ PendingQuery
expired now [] = []
expired now ((id, query) ∷ m) =
    let rest = expired now m in if ltb now query.expires_at then rest else (id, query) ∷ rest

-- closeBackend, on the backend itself: the queries that it drains, each of which closes a session.
unfoldable pub close_backend : BackendConn → BackendConn × Assoc ℕ PendingQuery
close_backend b =
    if b.is_done then (b, []) else (record b { is_done = true; pending = [] }, b.pending)

abbrev pub is_retired : Option ℕ → ℕ → Bool
is_retired none now = false
is_retired (some at) now = leb at now

-- A tick of expirePending: the queries that it deletes or drains.
unfoldable pub expire_tick : BackendConn → ℕ → BackendConn × Assoc ℕ PendingQuery
expire_tick b now =
    let b' = record b { pending = unexpired now b.pending } in
    let gone = expired now b.pending in
    let closed = close_backend b' in
    if is_retired b.retire_at now && length b'.pending == 0
    then (closed.0, gone ++ closed.1)
    else (b', gone)

-- The time between two ticks.
unfoldable pub expiry_interval : ℕ → ℕ
expiry_interval query_timeout =
    let half = query_timeout / 2 in
    let interval = if ltb second half then second else half in
    if ltb interval (second / 20) then second / 20 else interval

-- What rotateBackend does to the backend that has issued all its identifiers.
unfoldable pub retire : BackendConn → ℕ → ℕ → BackendConn
retire b now query_timeout = record b { retire_at = some (now + 2 * query_timeout) }
