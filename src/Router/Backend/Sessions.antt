-- ===== src/Router/Backend/Sessions.antt =====
-- What handleQuery, readBackend, expirePending and closeBackend of internal/router/server.go and
-- exchangeTCPViaUDP of internal/router/tcp_udp.go report of one backend socket to the telemetry, and what its gauge of active sessions then shows.
use cotten_router.Prelude.{
  ℕ, Bool, true, false, not, ◌&&◌, Option, none, some, List, [], ◌∷◌, if◌then◌else◌, Bytes, nat_eq,
}
use cotten_router.Telemetry.{
  CounterKey, key_eq, CounterKey_eq, Registry, new_registry, session_open, session_close,
  error_seen, drop_seen,
}
use cotten_router.Router.Backend.{
  PendingQuery, Reservation, reserved, refused, exhausted, reserve, take_reply, abandon,
  close_backend, expire_tick, query_protocol,
}
use cotten_router.Router.Backend.Ledger.{
  Event, reserving, replying, ticking, abandoning, closing, retiring, Ledger, happen, start,
}

abbrev pub key_of : PendingQuery → CounterKey
key_of q = (query_protocol q, q.route)

-- A socket's ledger, the registry, and the queries whose session is open when handleQuery or
-- exchangeTCPViaUDP takes them to the next generation of the socket.
pub record Books : Type 0 where
  pub ledger : Ledger
  pub registry : Registry
  pub carried : List (ℕ × PendingQuery)

-- `query.response != nil`
abbrev pub is_bridged : PendingQuery → Bool
is_bridged q = elim q.response [ none ↦ false | some _ ↦ true ]

-- handleQuery, and exchangeTCPViaUDP for a bridged query, open the session and then reserve. `rotates`
-- says that rotateBackend, which they call once the socket is exhausted, gives a backend; the session
-- then goes on there. exchangeTCPViaUDP reports neither the drop nor the error.
abbrev pub report_reserve : Books → PendingQuery → Bool → Reservation → Books
report_reserve k q rotates (reserved id) = k
report_reserve k q rotates refused =
    let closed = session_close k.registry (key_of q) in
    record k { registry = if is_bridged q then closed else drop_seen closed false }
report_reserve k q rotates exhausted =
    let closed = session_close k.registry (key_of q) in
    if rotates
    then record k { carried = (0, q) ∷ k.carried }
    else record k { registry = if is_bridged q then closed else error_seen closed (key_of q) }

-- readBackend closes the session of the query that a reply takes, exchangeTCPViaUDP that of the one
-- that it still finds.
unfoldable pub report_taken : Registry → Option PendingQuery → Registry
report_taken r none = r
report_taken r (some q) = session_close r (key_of q)

-- The loop of expirePending.
unfoldable pub report_expired : Registry → List (ℕ × PendingQuery) → Registry
report_expired r [] = r
report_expired r ((id, q) ∷ gone) = report_expired (session_close r (key_of q)) gone

-- The loop at the end of closeBackend.
unfoldable pub report_closed : Registry → Bool → List (ℕ × PendingQuery) → Registry
report_closed r failed [] = r
report_closed r failed ((id, q) ∷ gone) =
    let closed = session_close r (key_of q) in
    report_closed (if failed && not (is_bridged q) then error_seen closed (key_of q) else closed)
      failed gone

module _ (limit : ℕ) where
  unfoldable pub observe : Books → Event → Bool → Books
  observe k (reserving q) rotates =
      report_reserve
        (record k {
          ledger = happen limit k.ledger (reserving q);
          registry = session_open k.registry (key_of q);
        })
        q rotates (reserve k.ledger.conn q limit).1
  observe k (replying id question) rotates = record k {
    ledger = happen limit k.ledger (replying id question);
    registry = report_taken k.registry (take_reply k.ledger.conn id question).1;
  }
  observe k (abandoning id) rotates = record k {
    ledger = happen limit k.ledger (abandoning id);
    registry = report_taken k.registry (abandon k.ledger.conn id).1;
  }
  observe k (ticking now) rotates = record k {
    ledger = happen limit k.ledger (ticking now);
    registry = report_expired k.registry (expire_tick k.ledger.conn now).1;
  }
  observe k (closing failed) rotates = record k {
    ledger = happen limit k.ledger (closing failed);
    registry = report_closed k.registry failed (close_backend k.ledger.conn).1;
  }
  observe k (retiring now timeout) rotates = record k {
    ledger = happen limit k.ledger (retiring now timeout);
  }

  unfoldable pub observe_all : Books → List (Event × Bool) → Books
  observe_all k [] = k
  observe_all k ((e, rotates) ∷ es) = observe_all (observe k e rotates) es

abbrev pub open_books : Bytes → Books
open_books address = record { ledger = start address; registry = new_registry; carried = [] }

-- The entry's session is one of this protocol and route.
abbrev pub is_of : CounterKey → ℕ × PendingQuery → Bool
is_of j (id, q) = key_eq (key_of q) j
