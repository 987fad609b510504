-- ===== src/Guard/Bucket/Rate.antt =====
-- What a token bucket promises: it never holds more than its burst, it never lets more through than
-- the burst and the rate allow, and it serves whoever waits long enough.
use cotten_router.Prelude.{
  ℕ, ◌+◌, ◌-◌, ◌*◌, ◌≤◌, ◌≡◌, Bool, List, [], ◌∷◌, arith, if◌then◌else◌, All, Bytes_eq, nat_eq,
}
use cotten_router.Guard.Bucket.{Bucket, unit, consume}

pub consume-le-burst :
    (b : Bucket) (now rate burst cost : ℕ)
    → b.tokens ≤ burst * unit
    → (consume b now rate burst cost).0.tokens ≤ burst * unit
unfolding consume
consume-le-burst b now rate burst cost h = ground arith

-- What one call costs in units: nothing if it is refused.
abbrev paid : ℕ → Bool → ℕ
paid cost passed = if passed then cost * unit else 0

-- The calls of a history, each with its time and its cost: the bucket behind them, and the units that
-- they have been granted in all.
pub consume_all : ℕ → ℕ → Bucket → List (ℕ × ℕ) → Bucket × ℕ
unfolding consume
consume_all rate burst b [] = (b, 0)
consume_all rate burst b ((now, cost) ∷ calls) =
    let (b', passed) = consume b now rate burst cost in
    let (b'', granted) = consume_all rate burst b' calls in (b'', paid cost passed + granted)

-- One call: tokens are spent, or added for the time that has gone by.
consume_balance :
    (b : Bucket) (now rate burst cost : ℕ)
    → let (b', passed) = consume b now rate burst cost in
      (b.last ≤ b'.last) × (b'.tokens + paid cost passed ≤ b.tokens + (b'.last - b.last) * rate)
unfolding consume
consume_balance b now rate burst cost = ground arith

spans : (a b c r : ℕ) → a ≤ b → b ≤ c → (c - a) * r ≡ (c - b) * r + (b - a) * r
spans a b c r h k = let e : c - a ≡ (c - b) + (b - a) = omega arith in rw e (omega arith)

consume_all_balance :
    (rate burst : ℕ) (b : Bucket) (calls : List (ℕ × ℕ))
    → let (b', granted) = consume_all rate burst b calls in
      (b.last ≤ b'.last) × (b'.tokens + granted ≤ b.tokens + (b'.last - b.last) * rate)
unfolding consume_all
consume_all_balance rate burst b [] = (omega arith, omega arith)
consume_all_balance rate burst b ((now, cost) ∷ calls) =
    let one = consume_balance b now rate burst cost in
    let b' = (consume b now rate burst cost).0 in
    let rest = consume_all_balance rate burst b' calls in
    let last = (consume_all rate burst b' calls).0.last in
    (
      omega (arith, one.0, rest.0),
      omega (arith, one.1, rest.1, spans b.last b'.last last rate one.0 rest.0),
    )

last-consume :
    (b : Bucket) (now rate burst cost until : ℕ)
    → b.last ≤ until
    → now ≤ until
    → (consume b now rate burst cost).0.last ≤ until
unfolding consume
last-consume b now rate burst cost until h k = ground arith

last-consume_all :
    (rate burst until : ℕ) (b : Bucket) (calls : List (ℕ × ℕ))
    → b.last ≤ until
    → All (λ (c : ℕ × ℕ). c.0 ≤ until) calls
    → (consume_all rate burst b calls).0.last ≤ until
unfolding consume_all
last-consume_all rate burst until b [] h a = h
last-consume_all rate burst until b ((now, cost) ∷ calls) h a =
    last-consume_all rate burst until (consume b now rate burst cost).0 calls
      (last-consume b now rate burst cost until h a.0) a.1

spent-le :
    (granted left start most early late whole : ℕ)
    → left + granted ≤ start + early
    → start ≤ most
    → whole ≡ late + early
    → granted ≤ most + whole
spent-le granted left start most early late whole h k e = omega arith

-- Whatever calls are made, in whatever order their clocks were read, a bucket that starts within
-- its burst has, up to a time `until`, granted at most the burst and the rate times the time since
-- its last refill.
pub consume_all-le :
    (rate burst until : ℕ) (b : Bucket) (calls : List (ℕ × ℕ))
    → b.tokens ≤ burst * unit
    → b.last ≤ until
    → All (λ (c : ℕ × ℕ). c.0 ≤ until) calls
    → (consume_all rate burst b calls).1 ≤ burst * unit + (until - b.last) * rate
consume_all-le rate burst until b calls full from a =
    let balance = consume_all_balance rate burst b calls in
    let bound = last-consume_all rate burst until b calls from a in
    let span = spans b.last (consume_all rate burst b calls).0.last until rate balance.0 bound in
    spent-le (consume_all rate burst b calls).1 _ b.tokens (burst * unit) _ _ _ balance.1 full span
