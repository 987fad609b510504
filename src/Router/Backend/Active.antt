-- ===== src/Router/Backend/Active.antt =====
-- The gauge of active sessions counts the queries that are pending.
use cotten_router.Prelude.{ℕ, ◌+◌, nat_eq, count}
use cotten_router.Telemetry.{CounterKey, CounterKey_eq}
use cotten_router.Telemetry.Gauge.{Net}
use cotten_router.Router.Backend.Sessions.{Books, is_of}

-- Sessions opened are the queries entered or carried on, sessions closed those that have left.
abbrev pub Reported : Books → CounterKey → Type 0
Reported k j =
    Net k.registry j (count (is_of j) k.ledger.entered + count (is_of j) k.carried)
      (count (is_of j) k.ledger.left)

module _ (k : Books) (j : CounterKey) (v : Reported k j) where
  abbrev opens : ℕ
  opens = count (is_of j) k.ledger.entered + count (is_of j) k.carried

  abbrev closes : ℕ
  closes = count (is_of j) k.ledger.left
