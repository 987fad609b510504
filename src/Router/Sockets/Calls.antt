-- ===== src/Router/Sockets/Calls.antt =====
-- What getBackend, rotateBackend, dropBackend under the mutex, and Close do to a tidy table.
use cotten_router.Prelude.{
  ℕ, ◌≡◌, refl, sym, ap, subst, ◌∙◌, ◌≢◌, inl, inr, Bool, true, false, Option, none, some, [], ◌∷◌,
  arith, ==_iff, ◌==◌, Bool-cases, Option-cases, Bytes, bytes_eq, bytes_eq_iff, all, Assoc, lookup,
  insert, erase, lookup-insert, lookup-erase, lookup-insert_self, lookup-erase_self, Bytes_eq,
  if_cases, nat_eq,
}
use cotten_router.Router.Backend.{PendingQuery, BackendConn, new_backend, close_backend, retire}
use cotten_router.Router.Sockets.{
  Sockets, new_backend_locked, is_cooling, get_backend, retire_old, rotate_backend, forget,
  closed_if, close_listed, halt,
}
use cotten_router.Router.Sockets.Open.{
  Usable, Tidy, changed-Tidy, new_backend_locked-Tidy, numbered-lookup,
}

some_id : {x y : ℕ} → some x ≡ some y → x ≡ y
some_id h = cc

pub some_conn : {x y : BackendConn} → some x ≡ some y → x ≡ y
some_conn h = cc

-- The address of the socket that an address has is that address.
address_of :
    (s : Sockets) (id : ℕ) (c : BackendConn) (address : Bytes)
    → Tidy s
    → lookup id s.conns ≡ some c
    → s.is_done ≡ false
    → lookup address s.backends ≡ some id
    → c.address ≡ address
address_of s id c address v known d h =
    let (b, found, usable) = v.backends d address id h in
    let same : b ≡ c = some_conn (sym found ∙ known) in
    subst (λ x. x.address ≡ address) same usable.address_is

-- What is left once the backend `id` is no address's any more.
pub record Forgotten (s : Sockets) (id : ℕ) (t : Sockets) : Type 0 where
  pub tidy : Tidy t
  pub unused : t.is_done ≡ false → (address : Bytes) → lookup address t.backends ≢ some id
  pub leaving : t.leaving ≡ s.leaving
  pub next : t.next ≡ s.next
  pub done : t.is_done ≡ s.is_done
  pub kept :
      (address : Bytes) (j : ℕ)
      → lookup address t.backends ≡ some j
      → lookup address s.backends ≡ some j

module _ (s : Sockets) (id : ℕ) (c : BackendConn) (v : Tidy s)
    (known : lookup id s.conns ≡ some c) where
  -- Where no address has the backend already.
  as_before :
      (s.is_done ≡ false → (address : Bytes) → lookup address s.backends ≢ some id)
      → Forgotten s id s
  as_before unused = record {
    tidy = v;
    unused = unused;
    leaving = refl;
    next = refl;
    done = refl;
    kept = λ a j h. h;
  }

  pub forget-Forgotten : (now : ℕ) → Forgotten s id (forget s id c now)
  unfolding forget
  forget-Forgotten now = elim (Option-cases (lookup c.address s.backends)) [
    | inl e ↦
        rw (e, forget)
          (as_before (λ d address h.
            let a = address_of s id c address v known d h in
            let bad : none ≡ some id = sym e ∙ ap (λ k. lookup k s.backends) a ∙ h in cc))
    | inr (current, e) ↦
        rw (e, forget)
          (if_cases (Forgotten s id) (current == id) _ _
            (λ _. record {
              tidy = record {
                numbered = v.numbered;
                backends = λ d a j h. v.backends d a j (erased a j h);
                listed = v.listed;
              };
              unused = λ d a h.
                  let here = address_of s id c a v known d (erased a id h) in
                  let bad : none ≡ some id =
                    sym (lookup-erase_self c.address s.backends)
                    ∙ ap (λ k. lookup k (erase c.address s.backends)) here
                    ∙ h in
                  cc;
              leaving = refl;
              next = refl;
              done = refl;
              kept = erased;
            })
            (λ other. as_before (λ d a h.
              let here = address_of s id c a v known d h in
              let same : some current ≡ some id = sym e ∙ ap (λ k. lookup k s.backends) here ∙ h in
              let clash = (==_iff current id).1 (some_id same) in cc)))
  ]
    where
      erased :
          (a : Bytes) (j : ℕ)
          → lookup a (erase c.address s.backends) ≡ some j
          → lookup a s.backends ≡ some j
      erased a j h = elim (Bool-cases (bytes_eq c.address a)) [
        | inl same ↦
            let bad : none ≡ some j =
              sym (lookup-erase c.address a s.backends ∙ rw same refl) ∙ h in
            absurd (cc bad)
        | inr other ↦ sym (lookup-erase c.address a s.backends ∙ rw other refl) ∙ h
      ]

pub get_backend-Tidy :
    (s : Sockets) (address : Bytes) (now : ℕ) (dialled : Bool)
    → Tidy s
    → Tidy (get_backend s address now dialled).0
unfolding get_backend
get_backend-Tidy s address now dialled v =
    let P = λ (r : Sockets × Option ℕ). Tidy r.0 in
    if_cases P s.is_done _ _ (λ _. v)
      (λ _. elim (Option-cases (lookup address s.backends)) [
        | inr (id, e) ↦ rw e v
        | inl e ↦ rw e (
            if_cases P (is_cooling s address now) _ _ (λ _. v)
              (λ _. new_backend_locked-Tidy s address dialled v))
      ])

-- The result is a usable socket of the address, if it is one.
abbrev pub Gives : Bytes → Sockets × Option ℕ → Type 0
Gives address r =
    (id : ℕ) → r.1 ≡ some id → (c : BackendConn) × (lookup id r.0.conns ≡ some c) × Usable address c

new_backend_locked-Gives :
    (s : Sockets) (address : Bytes) (dialled : Bool)
    → Gives address (new_backend_locked s address dialled)
unfolding new_backend_locked
new_backend_locked-Gives s address false id h = absurd (cc h)
new_backend_locked-Gives s address true id h = (
  new_backend address,
  subst (λ k. lookup k (insert s.next (new_backend address) s.conns) ≡ some (new_backend address))
      (some_id h) (lookup-insert_self s.next (new_backend address) s.conns),
  record { address_is = refl; going = refl; current = refl },
)

pub get_backend-Gives :
    (s : Sockets) (address : Bytes) (now : ℕ) (dialled : Bool)
    → Tidy s
    → Gives address (get_backend s address now dialled)
unfolding get_backend
get_backend-Gives s address now dialled v =
    let P = Gives address in
    if_cases P s.is_done _ _ (λ _ id h. absurd (cc h))
      (λ going. elim (Option-cases (lookup address s.backends)) [
        | inr (k, e) ↦ rw e (λ id h.
            let same : k ≡ id = some_id h in v.backends going address id (e ∙ ap some same))
        | inl e ↦ rw e (
            if_cases P (is_cooling s address now) _ _ (λ _ id h. absurd (cc h))
              (λ _. new_backend_locked-Gives s address dialled))
      ])

module _ (s : Sockets) (address : Bytes) (id : ℕ) (c : BackendConn) (v : Tidy s)
    (known : lookup id s.conns ≡ some c) (here : c.address ≡ address)
    (going : s.is_done ≡ false) where
  older : (s.next == id) ≡ false
  older = ground (arith, numbered-lookup s id c v known)

  -- No address has the exhausted socket once a new one is in its place.
  replaced : (a : Bytes) → lookup a (insert address s.next s.backends) ≢ some id
  replaced a h = elim (Bool-cases (bytes_eq address a)) [
    | inl same ↦
        let clash : s.next ≡ id =
          some_id (sym (lookup-insert address a s.next s.backends ∙ rw same refl) ∙ h) in
        let test = (==_iff s.next id).1 clash in
        absurd (let bad : true ≡ false = sym test ∙ older in cc)
    | inr other ↦
        let was : lookup a s.backends ≡ some id =
          sym (lookup-insert address a s.next s.backends ∙ rw other refl) ∙ h in
        let there = address_of s id c a v known going was in
        let test = (bytes_eq_iff address a).1 (sym here ∙ there) in
        absurd (let bad : true ≡ false = sym test ∙ other in cc)
  ]

  retire_old-Tidy :
      (later timeout : ℕ) (dialled : Bool)
      → Tidy (retire_old id c later timeout (new_backend_locked s address dialled)).0
  unfolding new_backend_locked retire
  retire_old-Tidy later timeout false = v
  retire_old-Tidy later timeout true =
      let fresh = (new_backend_locked s address true).0 in
      changed-Tidy fresh id c (retire c later timeout) fresh.all_backends
        (new_backend_locked-Tidy s address true v)
        (record {
          known = lookup-insert s.next id (new_backend address) s.conns ∙ rw older known;
          usable = λ _ a h _. absurd (replaced a h);
          others = λ j _ h. h;
          own = λ h. (h, refl);
        })

pub rotate_backend-Tidy :
    (s : Sockets) (address : Bytes) (id : ℕ) (c : BackendConn) (now later timeout : ℕ)
    (dialled : Bool)
    → Tidy s
    → lookup id s.conns ≡ some c
    → c.address ≡ address
    → Tidy (rotate_backend s address id c now later timeout dialled).0
unfolding rotate_backend
rotate_backend-Tidy s address id c now later timeout dialled v known here =
    let P = λ (r : Sockets × Option ℕ). Tidy r.0 in
    if_cases P s.is_done _ _ (λ _. v)
      (λ going.
        let fresh = retire_old-Tidy s address id c v known here going later timeout dialled in
        elim (Option-cases (lookup address s.backends)) [
          | inr (k, e) ↦ rw e (if_cases P (k == id) _ _ (λ _. fresh) (λ _. v))
          | inl e ↦ rw e (if_cases P (is_cooling s address now) _ _ (λ _. v) (λ _. fresh))
        ])

pub halt-Tidy : (s : Sockets) → Tidy s → Tidy (halt s)
halt-Tidy s v = record {
  numbered = v.numbered;
  backends = λ d. absurd (cc d);
  listed = λ d. absurd (cc d);
}

closed_if-done :
    (o : Option (Unit {0})) (c : BackendConn)
    → (c.is_done ≡ false → o ≡ some tt)
    → (closed_if o c).is_done ≡ true
unfolding close_backend
closed_if-done none c listed = elim (Bool-cases c.is_done) [
  | inl done ↦ done
  | inr going ↦ absurd (let bad = listed going in cc)
]
closed_if-done (some _) c listed =
    if_cases (λ (r : BackendConn × Assoc ℕ PendingQuery). r.0.is_done ≡ true) c.is_done _ _ (λ h. h)
      (λ _. refl)

pub close_listed-closed :
    (listed : Assoc ℕ (Unit {0})) (m : Assoc ℕ BackendConn) (id : ℕ) (c' : BackendConn)
    → ((c : BackendConn) → lookup id m ≡ some c → c.is_done ≡ false → lookup id listed ≡ some tt)
    → lookup id (close_listed listed m) ≡ some c'
    → c'.is_done ≡ true
unfolding close_listed lookup
close_listed-closed listed [] id c' all h = absurd (cc h)
close_listed-closed listed ((j, c) ∷ m) id c' all h = elim (Bool-cases (j == id)) [
  | inl t ↦
      let same : closed_if (lookup j listed) c ≡ c' = some_conn (rw t at h) in
      let key : j ≡ id = (==_iff j id).0 t in
      ap (λ x. x.is_done) (sym same)
      ∙ closed_if-done (lookup j listed) c
          (λ going. ap (λ k. lookup k listed) key ∙ all c (rw t refl) going)
  | inr f ↦ close_listed-closed listed m id c' (λ d k going. all d (rw f k) going) (rw f at h)
]
