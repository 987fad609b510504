-- ===== src/Router/Backend/Ledger.antt =====
-- The history of one backend socket: what has been entered in its pending map, and what has left it.
-- The limit on pending queries is the one of the configuration, the same for every call. A tick of expirePending that
-- finds the socket retired and drained closes it in the same event: nothing is pending then.
use cotten_router.Prelude.{
  ℕ, zero, suc, ◌+◌, ◌≤◌, ◌<◌, ◌≡◌, refl, Bool, true, Option, none, some, List, [], ◌∷◌, ◌++◌, map,
  arith, Bytes, length, All, In, Distinct, nat_eq, count,
}
use cotten_router.Dns.Question.{Question}
use cotten_router.Router.Backend.{
  PendingQuery, BackendConn, Reservation, reserved, reserve, take_reply, abandon, close_backend,
  expire_tick, retire, new_backend,
}

-- `closing failed` is closeBackend with that argument, which only the telemetry depends on.
pub data Event : Type 0 where
  reserving : PendingQuery → Event
  replying : ℕ → Question → Event
  ticking : ℕ → Event
  abandoning : ℕ → Event
  closing : Bool → Event
  retiring : ℕ → ℕ → Event

-- A socket, the entries that reserve has made, the latest first, and the entries that have left.
pub record Ledger : Type 0 where
  pub conn : BackendConn
  pub entered : List (ℕ × PendingQuery)
  pub left : List (ℕ × PendingQuery)

abbrev pub book : Ledger → PendingQuery → BackendConn × Reservation → Ledger
book g q (b, reserved id) = record g { conn = b; entered = (id, q) ∷ g.entered }
book g q (b, _) = record g { conn = b }

abbrev pub settle : Ledger → ℕ → BackendConn × Option PendingQuery → Ledger
settle g id (b, none) = record g { conn = b }
settle g id (b, some q) = record g { conn = b; left = (id, q) ∷ g.left }

abbrev pub drain : Ledger → BackendConn × List (ℕ × PendingQuery) → Ledger
drain g (b, gone) = record g { conn = b; left = gone ++ g.left }

-- n - 1, …, 0
abbrev pub below : ℕ → List ℕ
below zero = []
below (suc n) = n ∷ below n

module _ (limit : ℕ) where
  unfoldable pub happen : Ledger → Event → Ledger
  happen g (reserving q) = book g q (reserve g.conn q limit)
  happen g (replying id question) = settle g id (take_reply g.conn id question)
  happen g (abandoning id) = settle g id (abandon g.conn id)
  happen g (ticking now) = drain g (expire_tick g.conn now)
  happen g (closing failed) = drain g (close_backend g.conn)
  happen g (retiring now timeout) = record g { conn = retire g.conn now timeout }

  unfoldable pub history : Ledger → List Event → Ledger
  unfolding happen
  history g [] = g
  history g (e ∷ es) = history (happen g e) es

abbrev pub start : Bytes → Ledger
start address = record { conn = new_backend address; entered = []; left = [] }

-- Identifiers are given out in order and each once, up to 2^16 of them; the pending map has no
-- identifier twice and stays within the limit; whatever is pending was entered; and by any test,
-- the entries that have left and those that are pending make up those that were entered.
pub record Accounted (limit : ℕ) (g : Ledger) : Type 0 where
  pub distinct : Distinct g.conn.pending
  pub within : length g.conn.pending ≤ limit
  pub issued : g.conn.issued ≤ 65536
  pub in_order : map (λ e. e.0) g.entered ≡ below g.conn.issued
  pub pending_below : All (λ (e : ℕ × PendingQuery). e.0 < g.conn.issued) g.conn.pending
  pub pending_entered : All (λ e. In e g.entered) g.conn.pending
  pub left_entered : All (λ e. In e g.entered) g.left
  pub balance :
      (p : ℕ × PendingQuery → Bool) → count p g.left + count p g.conn.pending ≡ count p g.entered
  pub closed_empty : g.conn.is_done ≡ true → g.conn.pending ≡ []

pub start-Accounted : (limit : ℕ) (address : Bytes) → Accounted limit (start address)
start-Accounted limit address = record {
  distinct = tt;
  within = omega arith;
  issued = omega arith;
  in_order = refl;
  pending_below = tt;
  pending_entered = tt;
  left_entered = tt;
  balance = λ p. omega arith;
  closed_empty = λ h. refl;
}
