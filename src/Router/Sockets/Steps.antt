-- ===== src/Router/Sockets/Steps.antt =====
-- What each call does to the table, in any order of the calls.
use cotten_router.Prelude.{
  ℕ, ◌^◌, ◌≡◌, refl, sym, ap, ◌∙◌, ◌≢◌, inl, inr, true, false, Option, some, leb, ==_iff, ◌==◌,
  Bool-cases, Option-cases, Bytes, length, Assoc, lookup, insert, erase, lookup-erase, Bytes_eq,
  if_cases, nat_eq,
}
use cotten_router.Dns.Question.{Question}
use cotten_router.Router.Backend.{
  PendingQuery, BackendConn, Reservation, close_backend, reserve, take_reply, matches_question,
}
use cotten_router.Router.Sockets.{Sockets, shut, unlist, swept}
use cotten_router.Router.Sockets.Open.{Tidy, changed-Tidy}

-- The address, whether it is closed, and when it retires are the same.
abbrev pub Alike : BackendConn → BackendConn → Type 0
Alike c c' = (c'.address ≡ c.address) × (c'.is_done ≡ c.is_done) × (c'.retire_at ≡ c.retire_at)

reserve-Alike : (c : BackendConn) (q : PendingQuery) (limit : ℕ) → Alike c (reserve c q limit).0
unfolding reserve
reserve-Alike c q limit =
    let P = λ (r : BackendConn × Reservation). Alike c r.0 in
    if_cases P c.is_done _ _ (λ _. (refl, refl, refl))
      (λ _.
        if_cases P (leb (2 ^ 16) c.issued) _ _ (λ _. (refl, refl, refl))
          (λ _.
            if_cases P (leb limit (length c.pending)) _ _ (λ _. (refl, refl, refl))
              (λ _. (refl, refl, refl))))

take_reply-Alike : (c : BackendConn) (id : ℕ) (q : Question) → Alike c (take_reply c id q).0
unfolding take_reply
take_reply-Alike c id q = elim (Option-cases (lookup id c.pending)) [
  | inl e ↦ rw (e, take_reply) (refl, refl, refl)
  | inr (p, e) ↦
      rw (e, take_reply)
        (if_cases (λ (r : BackendConn × Option PendingQuery). Alike c r.0) (matches_question p q) _
          _ (λ _. (refl, refl, refl)) (λ _. (refl, refl, refl)))
]

module _ (s : Sockets) (id : ℕ) (c : BackendConn) (v : Tidy s)
    (known : lookup id s.conns ≡ some c) where
  Alike-Tidy : (c' : BackendConn) → Alike c c' → Tidy (record s { conns = insert id c' s.conns })
  Alike-Tidy c' (a, d, r) = changed-Tidy s id c c' s.all_backends v (record {
    known = known;
    usable = λ _ address _ w. record {
      address_is = a ∙ w.address_is;
      going = d ∙ w.going;
      current = r ∙ w.current;
    };
    others = λ j _ h. h;
    own = λ h. (sym d ∙ h, refl);
  })

  pub reserve-Tidy :
      (q : PendingQuery) (limit : ℕ)
      → Tidy (record s { conns = insert id (reserve c q limit).0 s.conns })
  reserve-Tidy q limit = Alike-Tidy (reserve c q limit).0 (reserve-Alike c q limit)

  pub take_reply-Tidy :
      (n : ℕ) (q : Question) → Tidy (record s { conns = insert id (take_reply c n q).0 s.conns })
  take_reply-Tidy n q = Alike-Tidy (take_reply c n q).0 (take_reply-Alike c n q)

  pub erase-Tidy :
      (n : ℕ)
      → Tidy (record s { conns = insert id (record c { pending = erase n c.pending }) s.conns })
  erase-Tidy n = Alike-Tidy (record c { pending = erase n c.pending }) (refl, refl, refl)

  pub swept-Tidy : (now : ℕ) → Tidy (record s { conns = insert id (swept c now) s.conns })
  swept-Tidy now = Alike-Tidy (swept c now) (refl, refl, refl)

  closed-done : (close_backend c).0.is_done ≡ true
  unfolding close_backend
  closed-done =
      if_cases (λ (r : BackendConn × Assoc ℕ PendingQuery). r.0.is_done ≡ true) c.is_done _ _
        (λ h. h) (λ _. refl)

  -- A socket that is no address's may be closed.
  pub shut-Tidy :
      (s.is_done ≡ false → (address : Bytes) → lookup address s.backends ≢ some id)
      → Tidy (shut s id c)
  unfolding shut
  shut-Tidy unused = changed-Tidy s id c (close_backend c).0 s.all_backends v (record {
    known = known;
    usable = λ d address h _. absurd (unused d address h);
    others = λ j other h. h;
    own = λ h. absurd (let bad : true ≡ false = sym closed-done ∙ h in cc);
  })

  -- A closed socket may be taken off the list.
  pub unlist-Tidy : c.is_done ≡ true → Tidy (unlist s id)
  unfolding unlist
  unlist-Tidy done = record {
    numbered = v.numbered;
    backends = v.backends;
    listed = λ d j b h going. elim (Bool-cases (id == j)) [
      | inl same ↦
          let is : id ≡ j = (==_iff id j).0 same in
          let this : some c ≡ some b = sym known ∙ ap (λ k. lookup k s.conns) is ∙ h in
          let e : c ≡ b = cc in
          let closed : b.is_done ≡ true = sym (ap (λ x. x.is_done) e) ∙ done in
          absurd (let bad : true ≡ false = sym closed ∙ going in cc)
      | inr other ↦ lookup-erase id j s.all_backends ∙ rw other (v.listed d j b h going)
    ];
  }
