-- ===== src/Guard/Bucket.antt =====
-- The token bucket of internal/guard/limiter.go: the types `bucket` and the function `consume`.
-- Times are nanoseconds. Tokens are counted in units of 10^-9 of a token, so that `elapsed * rate`
-- is exact: the source computes with float64, and its rounding is not modelled.
pub mod Rate
use cotten_router.Prelude.{ℕ, ◌+◌, ◌-◌, ◌*◌, Bool, true, false, ltb, if◌then◌else◌}

-- The number of units in one token, and of nanoseconds in one second.
abbrev pub unit : ℕ
unit = 1000000000

pub record Bucket : Type 0 where
  pub tokens : ℕ
  pub last : ℕ

-- The refill: `elapsed > 0` is `last < now`.
unfoldable pub refill : Bucket → ℕ → ℕ → ℕ → Bucket
refill b now rate burst =
    let filled = b.tokens + (now - b.last) * rate in
    let capped = if ltb (burst * unit) filled then burst * unit else filled in
    if ltb b.last now then record { tokens = capped; last = now } else b

unfoldable pub consume : Bucket → ℕ → ℕ → ℕ → ℕ → Bucket × Bool
unfolding refill
consume b now rate burst cost =
    let r = refill b now rate burst in
    if ltb r.tokens (cost * unit)
    then (r, false)
    else (record r { tokens = r.tokens - cost * unit }, true)

-- A bucket that is full, as every constructor of the package makes it.
abbrev pub full_bucket : ℕ → ℕ → Bucket
full_bucket burst now = record { tokens = burst * unit; last = now }
