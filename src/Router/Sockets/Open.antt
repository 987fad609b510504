-- ===== src/Router/Sockets/Open.antt =====
-- The socket that an address is given is open, of that address, and not retired.
use cotten_router.Prelude.{
  ℕ, ◌<◌, ◌≡◌, refl, sym, ap, subst, ◌∙◌, inl, inr, Bool, true, false, none, some, arith, ==_iff,
  ◌==◌, Bool-cases, Bytes, bytes_eq, bytes_eq_iff, All, Assoc, lookup, insert, lookup-insert,
  lookup-insert_self, Bytes_eq, nat_eq, insert-All, lookup-All, All-imp,
}
use cotten_router.Router.Backend.{BackendConn, new_backend}
use cotten_router.Router.Sockets.{Sockets, new_sockets, new_backend_locked}

-- A socket that queries may be sent on.
pub record Usable (address : Bytes) (c : BackendConn) : Type 0 where
  pub address_is : c.address ≡ address
  pub going : c.is_done ≡ false
  pub current : c.retire_at ≡ none

-- While the server runs, each address has a usable socket or none, and every open socket is listed for
-- Close to find.
pub record Tidy (s : Sockets) : Type 0 where
  pub numbered : All (λ (e : ℕ × BackendConn). e.0 < s.next) s.conns
  pub backends :
      s.is_done ≡ false
      → (address : Bytes) (id : ℕ) → lookup address s.backends ≡ some id
      → (c : BackendConn) × (lookup id s.conns ≡ some c) × Usable address c
  pub listed :
      s.is_done ≡ false
      → (id : ℕ) (c : BackendConn) → lookup id s.conns ≡ some c
      → c.is_done ≡ false
      → lookup id s.all_backends ≡ some tt

pub new_sockets-Tidy : Tidy new_sockets
unfolding lookup
new_sockets-Tidy = record {
  numbered = tt;
  backends = λ d address id h. absurd (cc h);
  listed = λ d id c h. absurd (cc h);
}

pub numbered-lookup :
    (s : Sockets) (id : ℕ) (c : BackendConn) → Tidy s → lookup id s.conns ≡ some c → id < s.next
numbered-lookup s id c v h =
    lookup-All (λ (e : ℕ × BackendConn). e.0 < s.next) id c s.conns v.numbered h

pub new_backend_locked-Tidy :
    (s : Sockets) (address : Bytes) (dialled : Bool)
    → Tidy s
    → Tidy (new_backend_locked s address dialled).0
unfolding new_backend_locked
new_backend_locked-Tidy s address false v = v
new_backend_locked-Tidy s address true v = record {
  numbered =
      insert-All _ s.next (new_backend address) s.conns
        (All-imp s.conns (λ e h. omega (arith, h)) v.numbered) (omega arith);
  backends = λ d a id h. elim (Bool-cases (bytes_eq address a)) [
    | inl same ↦
        let new : s.next ≡ id =
          some_of (sym (lookup-insert address a s.next s.backends ∙ rw same refl) ∙ h) in
        (
          new_backend address,
          subst
              (λ k.
                lookup k (insert s.next (new_backend address) s.conns) ≡ some (new_backend address))
              new (lookup-insert_self s.next (new_backend address) s.conns),
          record { address_is = (bytes_eq_iff address a).0 same; going = refl; current = refl },
        )
    | inr other ↦
        let (c, found, usable) =
          v.backends d a id (sym (lookup-insert address a s.next s.backends ∙ rw other refl) ∙ h) in
        (
          c,
          lookup-insert s.next id (new_backend address) s.conns ∙ rw (elsewhere id c found) found,
          usable,
        )
  ];
  listed = λ d id c h going. elim (Bool-cases (s.next == id)) [
    | inl same ↦ lookup-insert s.next id tt s.all_backends ∙ rw same refl
    | inr other ↦
        lookup-insert s.next id tt s.all_backends
        ∙ rw other (
            v.listed d id c
              (sym (lookup-insert s.next id (new_backend address) s.conns ∙ rw other refl) ∙ h)
              going)
  ];
}
  where
    some_of : {x y : ℕ} → some x ≡ some y → x ≡ y
    some_of h = cc

    elsewhere : (id : ℕ) (c : BackendConn) → lookup id s.conns ≡ some c → (s.next == id) ≡ false
    elsewhere id c h = ground (arith, numbered-lookup s id c v h)

-- A change of one socket: of a current one, nothing that makes it usable changes.
pub record Change (s : Sockets) (id : ℕ) (c c' : BackendConn) (all' : Assoc ℕ (Unit {0}))
    : Type 0 where
  pub known : lookup id s.conns ≡ some c
  pub usable :
      s.is_done ≡ false
      → (address : Bytes) → lookup address s.backends ≡ some id
      → Usable address c
      → Usable address c'
  pub others :
      (j : ℕ) → (id == j) ≡ false → lookup j s.all_backends ≡ some tt → lookup j all' ≡ some tt
  pub own : c'.is_done ≡ false → (c.is_done ≡ false) × (all' ≡ s.all_backends)

pub changed-Tidy :
    (s : Sockets) (id : ℕ) (c c' : BackendConn) (all' : Assoc ℕ (Unit {0}))
    → Tidy s
    → Change s id c c' all'
    → Tidy (record s { conns = insert id c' s.conns; all_backends = all' })
changed-Tidy s id c c' all' v e = record {
  numbered = insert-All _ id c' s.conns v.numbered (numbered-lookup s id c v e.known);
  backends = λ d a j h. elim (Bool-cases (id == j)) [
    | inl same ↦
        let is : id ≡ j = (==_iff id j).0 same in
        let (b, found, usable) = v.backends d a id (h ∙ ap some (sym is)) in
        let this : b ≡ c = conn_of (sym found ∙ e.known) in
        (
          c',
          lookup-insert id j c' s.conns ∙ rw same refl,
          e.usable d a (h ∙ ap some (sym is)) (subst (Usable a) this usable),
        )
    | inr other ↦
        let (b, found, usable) = v.backends d a j h in
        (b, lookup-insert id j c' s.conns ∙ rw other found, usable)
  ];
  listed = λ d j b h going. elim (Bool-cases (id == j)) [
    | inl same ↦
        let is : id ≡ j = (==_iff id j).0 same in
        let this : c' ≡ b = conn_of (sym (lookup-insert id j c' s.conns ∙ rw same refl) ∙ h) in
        let (was, same_list) = e.own (ap (λ x. x.is_done) this ∙ going) in
        subst (λ k. lookup k all' ≡ some tt) is
          (ap (lookup id) same_list ∙ v.listed d id c e.known was)
    | inr other ↦
        e.others j other
          (v.listed d j b (sym (lookup-insert id j c' s.conns ∙ rw other refl) ∙ h) going)
  ];
}
  where
    conn_of : {x y : BackendConn} → some x ≡ some y → x ≡ y
    conn_of h = cc
