-- ===== src/Telemetry/Gauge.antt =====
-- What the methods of the registry do to the gauge of active sessions.
use cotten_router.Prelude.{
  ℕ, ◌+◌, ◌%◌, ◌^◌, ◌<◌, ◌≡◌, refl, ap, subst, ◌∙◌, Bool, true, false, some, arith, if◌then◌else◌,
  lookup, lookup-insert, if-map, if-congr, nat_eq,
}
use cotten_router.Telemetry.{
  drop_seen, or_new, Counter, CounterKey, key_eq, key_eq_iff, CounterKey_eq, Registry, get,
  put_counter, add, minus_one, session_open, session_close, error_seen,
}

pub get-put_counter :
    (r : Registry) (k j : CounterKey) (c : Counter)
    → get (put_counter r k c) j ≡ (if key_eq k j then c else get r j)
unfolding get
get-put_counter r k j c =
    ap or_new (lookup-insert k j c r.items) ∙ if-map or_new (key_eq k j) (some c) (lookup j r.items)

abbrev pub active_of : Registry → CounterKey → ℕ
active_of r k = (get r k).active

-- A change of the counter of a key is a change of its gauge by the same amount.
abbrev moved : Registry → CounterKey → CounterKey → ℕ → ℕ
moved r k j n = if key_eq k j then add (active_of r j) n else active_of r j

active-put_counter :
    (r : Registry) (k j : CounterKey) (n : ℕ) (c : Counter)
    → c.active ≡ add (active_of r k) n
    → active_of (put_counter r k c) j ≡ moved r k j n
active-put_counter r k j n c h =
    ap (λ (d : Counter). d.active) (get-put_counter r k j c)
    ∙ if-map (λ (d : Counter). d.active) (key_eq k j) c (get r j)
    ∙ if-congr (key_eq k j) c.active (active_of r j) (add (active_of r j) n) (active_of r j)
        (λ same. h ∙ ap (λ i. add (active_of r i) n) ((key_eq_iff k j).0 same)) refl

pub active-session_open :
    (r : Registry) (k j : CounterKey) → active_of (session_open r k) j ≡ moved r k j 1
unfolding session_open
active-session_open r k j = active-put_counter r k j 1 _ refl

pub active-session_close :
    (r : Registry) (k j : CounterKey) → active_of (session_close r k) j ≡ moved r k j minus_one
unfolding session_close
active-session_close r k j = active-put_counter r k j minus_one _ refl

if-same : (b : Bool) (x : ℕ) → (if b then x else x) ≡ x
if-same true x = refl
if-same false x = refl

pub active-error_seen :
    (r : Registry) (k j : CounterKey) → active_of (error_seen r k) j ≡ active_of r j
unfolding error_seen
active-error_seen r k j =
    let c = record (get r k) { errors = add (get r k).errors 1 } in
    ap (λ (d : Counter). d.active) (get-put_counter r k j c)
    ∙ if-map (λ (d : Counter). d.active) (key_eq k j) c (get r j)
    ∙ if-congr (key_eq k j) c.active (active_of r j) (active_of r j) (active_of r j)
        (λ same. ap (active_of r) ((key_eq_iff k j).0 same)) refl
    ∙ if-same (key_eq k j) (active_of r j)

-- The gauge of a key after `opens` sessions have been opened and `closes` closed.
pub record Net (r : Registry) (j : CounterKey) (opens closes : ℕ) : Type 0 where
  pub bounded : active_of r j < 2 ^ 64
  pub balanced : (active_of r j + closes) % 2 ^ 64 ≡ opens % 2 ^ 64

abbrev pub one_if : Bool → ℕ
one_if b = if b then 1 else 0

moved-Net :
    (r r' : Registry) (j : CounterKey) (b : Bool) (opens closes n m m' : ℕ)
    → active_of r' j ≡ (if b then add (active_of r j) n else active_of r j)
    → (n + m') % 2 ^ 64 ≡ m % 2 ^ 64
    → Net r j opens closes
    → Net r' j (opens + (if b then m else 0)) (closes + (if b then m' else 0))
moved-Net r r' j true opens closes n m m' h k v = record {
  bounded = omega (arith, h);
  balanced = omega (arith, h, k, v.balanced, v.bounded);
}
moved-Net r r' j false opens closes n m m' h k v = record {
  bounded = omega (arith, h, v.bounded);
  balanced = omega (arith, h, v.balanced);
}

pub session_open-Net :
    (r : Registry) (k j : CounterKey) (opens closes : ℕ)
    → Net r j opens closes
    → Net (session_open r k) j (opens + one_if (key_eq k j)) closes
session_open-Net r k j opens closes v =
    let w =
      moved-Net r (session_open r k) j (key_eq k j) opens closes 1 1 0 (active-session_open r k j)
        (omega arith) v in
    subst (Net (session_open r k) j (opens + (if key_eq k j then 1 else 0)))
      (ap (◌+◌ closes) (if-same (key_eq k j) 0) ∙ omega arith) w

pub session_close-Net :
    (r : Registry) (k j : CounterKey) (opens closes : ℕ)
    → Net r j opens closes
    → Net (session_close r k) j opens (closes + one_if (key_eq k j))
session_close-Net r k j opens closes v =
    let w =
      moved-Net r (session_close r k) j (key_eq k j) opens closes minus_one 0 1
        (active-session_close r k j) (omega arith) v in
    subst (λ n. Net (session_close r k) j n (closes + (if key_eq k j then 1 else 0)))
      (ap (◌+◌ opens) (if-same (key_eq k j) 0) ∙ omega arith) w

pub error_seen-Net :
    (r : Registry) (k j : CounterKey) (opens closes : ℕ)
    → Net r j opens closes
    → Net (error_seen r k) j opens closes
error_seen-Net r k j opens closes v = record {
  bounded = omega (arith, active-error_seen r k j, v.bounded);
  balanced = omega (arith, active-error_seen r k j, v.balanced);
}

pub Net-cancel :
    (r : Registry) (j : CounterKey) (opens closes n : ℕ)
    → Net r j (opens + n) (closes + n)
    → Net r j opens closes
Net-cancel r j opens closes n v = record {
  bounded = v.bounded;
  balanced = omega (arith, v.balanced);
}

pub drop_seen-Net :
    (r : Registry) (j : CounterKey) (opens closes : ℕ)
    → Net r j opens closes
    → Net (drop_seen r false) j opens closes
unfolding drop_seen get
drop_seen-Net r j opens closes v = record { bounded = v.bounded; balanced = v.balanced }

pub Net-eq :
    {r : Registry} {j : CounterKey} {a a' c c' : ℕ} → Net r j a c → a ≡ a' → c ≡ c' → Net r j a' c'
Net-eq {r} {j} v e f = subst (λ (n : ℕ × ℕ). Net r j n.0 n.1) (λ i. (e i, f i)) v
