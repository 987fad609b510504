-- ===== src/Tests/Sockets.antt =====
-- One backend socket on which three queries are entered: one is answered, one is bridged from TCP and
-- given up, and one is still pending.
use cotten_router.Prelude.{
  ℕ, ◌+◌, ◌≡◌, Bool, true, none, some, List, [], ◌∷◌, map, ltb, ◌==◌, if◌then◌else◌, Bytes, codes,
  Bytes_eq, nat_eq, count,
}
use cotten_router.Dns.Question.{Question}
use cotten_router.Guard.Address.{v4}
use cotten_router.Router.Backend.{PendingQuery, take_reply}
use cotten_router.Router.Backend.Ledger.{
  Event, reserving, replying, ticking, abandoning, history, start, Accounted,
}
use cotten_router.Router.Backend.Account.{start-history-Accounted}
use cotten_router.Router.Backend.Replies.{Answers, take_reply-Answers, history_once}

abbrev asking : Bytes → Question
asking name = record { name = name; type = 16; class = 1; end = 21 }

abbrev pending_query : Bytes → ℕ → PendingQuery
pending_query name until = record {
  client_addr = (v4 7, 5353);
  client_id = 99;
  expires_at = until;
  route = codes "r";
  question = asking name;
  response = none;
}

abbrev socket : Bytes
socket = codes "127.0.0.1:5300"

abbrev events : List Event
events =
    reserving (pending_query (codes "a.b") 10)
    ∷ reserving (pending_query (codes "c.b") 20)
    ∷ replying 0 (asking (codes "x.b"))
    ∷ replying 0 (asking (codes "a.b"))
    ∷ reserving (record (pending_query (codes "d.b") 20) { response = some 1 })
    ∷ abandoning 2
    ∷ ticking 15
    ∷ []

start-history-Accounted_example : Accounted 8 (history 8 (start socket) events)
start-history-Accounted_example = start-history-Accounted 8 socket events

take_reply-Answers_example :
    let g = history 8 (start socket) events in
    let r = take_reply g.conn 1 (asking (codes "c.b")) in
    Answers 8 g 1 (asking (codes "c.b")) r.0 r.1
take_reply-Answers_example = take_reply-Answers 8 socket events 1 (asking (codes "c.b"))

history_once_example :
    let g = history 8 (start socket) events in
    count (λ e. e.0 == 1) g.left + count (λ e. e.0 == 1) g.conn.pending
    ≡ (if ltb 1 g.conn.issued then 1 else 0)
history_once_example = history_once 8 socket events 1

abbrev observed : List (Event × Bool)
observed = map (λ e. (e, true)) events
