-- ===== src/Router/Sockets.antt =====
-- The table of backend sockets in internal/router/server.go: getBackend, newBackendLocked, rotateBackend,
-- dropBackend, and what closeBackend, expirePending and Close do to it. A backendConn is a number, which
-- `conns` maps to its state; whether a name resolves and the dial succeeds is given to each call.
pub mod Open
mod Steps
mod Calls
mod Leaving
pub mod Served
use cotten_router.Prelude.{
  ℕ, zero, suc, ◌+◌, ◌-◌, ◌*◌, ◌/◌, ◌%◌, ◌^◌, ◌≤◌, ◌<◌, ◌≡◌, refl, sym, ap, subst, ◌∙◌, ◌≢◌, ◌↔◌,
  ◌⊎◌, inl, inr, Bool, true, false, not, ◌&&◌, ◌||◌, Option, none, some, List, [], ◌∷◌, ◌++◌, map,
  append_assoc, append-nil, arith, ltb, leb, ltb→lt, lt→ltb, leb→le, le→leb, ==_iff, ◌==◌,
  if◌then◌else◌, Bool-cases, Option-cases, Eq, Bytes, codes, bytes_eq, bytes_eq_iff, bytes_eq_refl,
  length, get_elem?, set, take, drop, all, All, length-append, length-take, length-drop, length-set,
  take-append-drop, take-length-append, drop-length-append, drop-drop, Result, ok, err, panic,
  no_fuel, ◌>>=◌, ◌>>◌, reject, or_err, >>=-ok, reject-ok, ok-inj, or_err-ok, byte_at, slice,
  u16_at, byte_at-drop, u16_at-drop, slice-drop, bit, high_byte, low_byte, put_u16, clear_bit,
  set_bit, clear_low, get_or, Assoc, lookup, insert, erase, lookup-insert, lookup-erase,
  length-erase-le, length-erase-lt, length-insert_new, length-insert_old, In, In-append_left,
  In-append_right, All-In, drop-get_or, get_or-length-append, lookup-insert_self, length-insert-le,
  length-erase-lt_of_In, Distinct, insert-Distinct, erase-Distinct, In-lookup, lookup-In, beq-ne,
  lookup-insert_ne, lookup-erase_ne, lookup-erase_self, Bytes_eq, byte_at-ok, u16_at-ok, slice-ok,
  if_cases, if-map, if-congr, nat_eq, count, count-append, erase_absent, count-erase,
  count-insert_new, insert-All, erase-All, lookup-All, All-imp, lookup_bound, AllValues,
  lookup-AllValues, insert-AllValues, erase-AllValues,
}
use cotten_router.Router.Backend.{
  PendingQuery, BackendConn, new_backend, close_backend, unexpired, is_retired, retire,
}

-- The fields mu guards; `next` is the number of the next backendConn, and `leaving` the backends that
-- some goroutine is on its way to close, between two holds of a mutex.
pub record Sockets : Type 0 where
  pub conns : Assoc ℕ BackendConn
  pub next : ℕ
  pub leaving : List ℕ
  pub backends : Assoc Bytes ℕ
  pub all_backends : Assoc ℕ (Unit {0})
  pub backend_retry : Assoc Bytes ℕ
  pub is_done : Bool

abbrev pub new_sockets : Sockets
new_sockets = record {
  conns = [];
  next = 0;
  leaving = [];
  backends = [];
  all_backends = [];
  backend_retry = [];
  is_done = false;
}

-- newBackendLocked
unfoldable pub new_backend_locked : Sockets → Bytes → Bool → Sockets × Option ℕ
new_backend_locked s address dialled = if not dialled then (s, none) else (
  record s {
    conns = insert s.next (new_backend address) s.conns;
    next = s.next + 1;
    backends = insert address s.next s.backends;
    all_backends = insert s.next tt s.all_backends;
    backend_retry = erase address s.backend_retry;
  },
  some s.next,
)

-- `time.Now().Before(retryAt)`, for the zero time too.
abbrev pub is_cooling : Sockets → Bytes → ℕ → Bool
is_cooling s address now = elim (lookup address s.backend_retry) [
  | none ↦ false
  | some retry_at ↦ ltb now retry_at
]

unfoldable pub get_backend : Sockets → Bytes → ℕ → Bool → Sockets × Option ℕ
get_backend s address now dialled =
    if s.is_done then (s, none) else elim (lookup address s.backends) [
      | some id ↦ (s, some id)
      | none ↦ if is_cooling s address now then (s, none) else new_backend_locked s address dialled
    ]

-- What closeBackend does in closeOnce, on the backend itself.
unfoldable pub shut : Sockets → ℕ → BackendConn → Sockets
shut s id c = record s { conns = insert id (close_backend c).0 s.conns }

-- The end of closeBackend, for the caller that has closed it.
unfoldable pub unlist : Sockets → ℕ → Sockets
unlist s id = record s { all_backends = erase id s.all_backends }

-- The caller goes on to closeBackend.
abbrev pub leave : Sockets → ℕ → Sockets
leave s id = record s { leaving = id ∷ s.leaving }

abbrev pub retire_old : ℕ → BackendConn → ℕ → ℕ → Sockets × Option ℕ → Sockets × Option ℕ
retire_old id c now timeout (s, none) = (s, none)
retire_old id c now timeout (s, some new) =
    (record s { conns = insert id (retire c now timeout) s.conns }, some new)

-- rotateBackend, for the exhausted backend `c` with the number `id`; `now` is read for the cool-down,
-- `later` for the retirement.
unfoldable pub rotate_backend :
    Sockets → Bytes → ℕ → BackendConn → ℕ → ℕ → ℕ → Bool → Sockets × Option ℕ
rotate_backend s address id c now later timeout dialled =
    let fresh = retire_old id c later timeout (new_backend_locked s address dialled) in
    if s.is_done then (s, none) else elim (lookup address s.backends) [
      | some current ↦ if current == id then fresh else (s, some current)
      | none ↦ if is_cooling s address now then (s, none) else fresh
    ]

-- The part of dropBackend under the mutex: 250 milliseconds until the next attempt. closeBackend is
-- called once the mutex is free.
unfoldable pub forget : Sockets → ℕ → BackendConn → ℕ → Sockets
forget s id c now = elim (lookup c.address s.backends) [
  | none ↦ s
  | some current ↦
      if current == id
      then record s {
        backends = erase c.address s.backends;
        backend_retry = insert c.address (now + 250000000) s.backend_retry;
      }
      else s
]

unfoldable pub drop_locked : Sockets → ℕ → BackendConn → ℕ → Sockets
drop_locked s id c now = leave (forget s id c now) id

-- A tick of expirePending under the backend's mutex: what is left of its pending map, and whether it is
-- retired and drained, and so to be closed.
abbrev pub swept : BackendConn → ℕ → BackendConn
swept c now = record c { pending = unexpired now c.pending }

unfoldable pub tick_locked : Sockets → ℕ → BackendConn → ℕ → Sockets
tick_locked s id c now =
    let t = record s { conns = insert id (swept c now) s.conns } in
    if is_retired c.retire_at now && length (unexpired now c.pending) == 0 then leave t id else t

-- The part of Close on the backends: those in allBackends are closed, and both maps cleared.
abbrev pub closed_if : Option (Unit {0}) → BackendConn → BackendConn
closed_if none c = c
closed_if (some _) c = (close_backend c).0

unfoldable pub close_listed : Assoc ℕ (Unit {0}) → Assoc ℕ BackendConn → Assoc ℕ BackendConn
close_listed listed [] = []
close_listed listed ((id, c) ∷ m) = (id, closed_if (lookup id listed) c) ∷ close_listed listed m

-- What Close does to the table under the mutex; it has closed `done` before.
abbrev pub halt : Sockets → Sockets
halt s = record s { is_done = true; backends = []; all_backends = [] }

unfoldable pub close_sockets : Sockets → Sockets
close_sockets s = record (halt s) { conns = close_listed s.all_backends s.conns }
