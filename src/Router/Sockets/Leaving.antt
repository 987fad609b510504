-- ===== src/Router/Sockets/Leaving.antt =====
-- The backends that some goroutine is on its way to close are no address's any more.
use cotten_router.Prelude.{
  ℕ, ◌<◌, ◌≡◌, refl, sym, ap, subst, ◌∙◌, ◌≢◌, inl, inr, Bool, true, false, ◌&&◌, Option, none,
  some, arith, ◌==◌, Bool-cases, Option-cases, Bytes, bytes_eq, length, All, Assoc, lookup, insert,
  lookup-insert, In, All-In, Bytes_eq, if_cases, nat_eq, All-imp,
}
use cotten_router.Router.Backend.{BackendConn, is_retired, unexpired, retire}
use cotten_router.Router.Sockets.{
  Sockets, new_sockets, new_backend_locked, is_cooling, get_backend, retire_old, rotate_backend,
  forget, leave, drop_locked, swept, tick_locked, halt,
}
use cotten_router.Router.Sockets.Open.{Tidy, numbered-lookup}
use cotten_router.Router.Sockets.Calls.{forget-Forgotten}
use cotten_router.Router.Sockets.Steps.{swept-Tidy}

pub record Leaving (s : Sockets) : Type 0 where
  pub below : All (λ (id : ℕ). id < s.next) s.leaving
  pub unused :
      s.is_done ≡ false
      → (id : ℕ) → In id s.leaving
      → (address : Bytes) → lookup address s.backends ≢ some id

pub new_sockets-Leaving : Leaving new_sockets
new_sockets-Leaving = record { below = tt; unused = λ d id i. absurd i }

-- The sockets change, and nothing else.
pub conns-Leaving :
    (s : Sockets) (m : Assoc ℕ BackendConn) → Leaving s → Leaving (record s { conns = m })
conns-Leaving s m w = record { below = w.below; unused = w.unused }

pub unlisted-Leaving :
    (s : Sockets) (m : Assoc ℕ (Unit {0})) → Leaving s → Leaving (record s { all_backends = m })
unlisted-Leaving s m w = record { below = w.below; unused = w.unused }

-- One more backend that is no address's.
pub leave-Leaving :
    (s : Sockets) (id : ℕ)
    → Leaving s
    → id < s.next
    → (s.is_done ≡ false → (address : Bytes) → lookup address s.backends ≢ some id)
    → Leaving (leave s id)
leave-Leaving s id w old unused = record {
  below = (old, w.below);
  unused = λ d j i address h. elim i [
    | inl e ↦ unused d address (h ∙ ap some e)
    | inr k ↦ w.unused d j k address h
  ];
}

pub leave-Tidy : (s : Sockets) (id : ℕ) → Tidy s → Tidy (leave s id)
leave-Tidy s id v = record { numbered = v.numbered; backends = v.backends; listed = v.listed }

new_backend_locked-Leaving :
    (s : Sockets) (address : Bytes) (dialled : Bool)
    → Leaving s
    → Leaving (new_backend_locked s address dialled).0
unfolding new_backend_locked
new_backend_locked-Leaving s address false w = w
new_backend_locked-Leaving s address true w = record {
  below = All-imp s.leaving (λ id h. omega (arith, h)) w.below;
  unused = λ d id i a h. elim (Bool-cases (bytes_eq address a)) [
    | inl same ↦
        let new : some s.next ≡ some id =
          sym (lookup-insert address a s.next s.backends ∙ rw same refl) ∙ h in
        let n : s.next ≡ id = cc in
        let old = All-In (λ (j : ℕ). j < s.next) id s.leaving w.below i in
        absurd (omega (arith, n, old))
    | inr other ↦
        w.unused d id i a (sym (lookup-insert address a s.next s.backends ∙ rw other refl) ∙ h)
  ];
}

pub get_backend-Leaving :
    (s : Sockets) (address : Bytes) (now : ℕ) (dialled : Bool)
    → Leaving s
    → Leaving (get_backend s address now dialled).0
unfolding get_backend
get_backend-Leaving s address now dialled w =
    let P = λ (r : Sockets × Option ℕ). Leaving r.0 in
    if_cases P s.is_done _ _ (λ _. w)
      (λ _. elim (Option-cases (lookup address s.backends)) [
        | inr (id, e) ↦ rw e w
        | inl e ↦ rw e (
            if_cases P (is_cooling s address now) _ _ (λ _. w)
              (λ _. new_backend_locked-Leaving s address dialled w))
      ])

retire_old-Leaving :
    (id : ℕ) (c : BackendConn) (now timeout : ℕ) (r : Sockets × Option ℕ)
    → Leaving r.0
    → Leaving (retire_old id c now timeout r).0
retire_old-Leaving id c now timeout (s, none) w = w
retire_old-Leaving id c now timeout (s, some new) w =
    conns-Leaving s (insert id (retire c now timeout) s.conns) w

pub rotate_backend-Leaving :
    (s : Sockets) (address : Bytes) (id : ℕ) (c : BackendConn) (now later timeout : ℕ)
    (dialled : Bool)
    → Leaving s
    → Leaving (rotate_backend s address id c now later timeout dialled).0
unfolding rotate_backend
rotate_backend-Leaving s address id c now later timeout dialled w =
    let P = λ (r : Sockets × Option ℕ). Leaving r.0 in
    let fresh =
      retire_old-Leaving id c later timeout (new_backend_locked s address dialled)
        (new_backend_locked-Leaving s address dialled w) in
    if_cases P s.is_done _ _ (λ _. w)
      (λ _. elim (Option-cases (lookup address s.backends)) [
        | inr (k, e) ↦ rw e (if_cases P (k == id) _ _ (λ _. fresh) (λ _. w))
        | inl e ↦ rw e (if_cases P (is_cooling s address now) _ _ (λ _. w) (λ _. fresh))
      ])

pub halt-Leaving : (s : Sockets) → Leaving s → Leaving (halt s)
halt-Leaving s w = record { below = w.below; unused = λ d. absurd (cc d) }

module _ (s : Sockets) (id : ℕ) (c : BackendConn) (v : Tidy s) (w : Leaving s)
    (known : lookup id s.conns ≡ some c) where
  pub drop_locked-Kept :
      (now : ℕ) → Tidy (drop_locked s id c now) × Leaving (drop_locked s id c now)
  unfolding drop_locked
  drop_locked-Kept now =
      let t = forget s id c now in
      let f = forget-Forgotten s id c v known now in
      let still : Leaving t = record {
        below = rw (f.leaving, f.next) w.below;
        unused = λ d j i address h.
            w.unused (sym f.done ∙ d) j (subst (In j) f.leaving i) address (f.kept address j h);
      } in
      let old : id < t.next = rw (f.next) (numbered-lookup s id c v known) in
      (leave-Tidy t id f.tidy, leave-Leaving t id still old f.unused)

  -- A retired socket is no address's.
  retired_unused :
      (now : ℕ)
      → is_retired c.retire_at now ≡ true
      → s.is_done ≡ false
      → (address : Bytes) → lookup address s.backends ≢ some id
  retired_unused now retired d address h =
      let (b, found, usable) = v.backends d address id h in
      let e : some b ≡ some c = sym found ∙ known in
      let this : b ≡ c = cc in
      let current : c.retire_at ≡ none = subst (λ x. x.retire_at ≡ none) this usable.current in
      let no : is_retired c.retire_at now ≡ false = ap (λ x. is_retired x now) current in cc

  pub tick_locked-Kept :
      (now : ℕ) → Tidy (tick_locked s id c now) × Leaving (tick_locked s id c now)
  unfolding tick_locked
  tick_locked-Kept now =
      let t = record s { conns = insert id (swept c now) s.conns } in
      let tidy = swept-Tidy s id c v known now in
      let still = conns-Leaving s (insert id (swept c now) s.conns) w in
      if_cases (λ r. Tidy r × Leaving r)
        (is_retired c.retire_at now && length (unexpired now c.pending) == 0) (leave t id) t
        (λ h. (
          leave-Tidy t id tidy,
          leave-Leaving t id still (numbered-lookup s id c v known)
              (retired_unused now (ground (arith, h))),
        ))
        (λ _. (tidy, still))
