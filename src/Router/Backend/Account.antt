-- ===== src/Router/Backend/Account.antt =====
-- Every event on a backend socket keeps its accounts.
use cotten_router.Prelude.{
  ℕ, suc, ◌+◌, ◌%◌, ◌<◌, ◌≡◌, refl, sym, ap, subst, inl, inr, Bool, true, false, ◌&&◌, none, some,
  List, [], ◌∷◌, ◌++◌, append-nil, arith, leb, ◌==◌, if◌then◌else◌, Option-cases, Bytes, length,
  Assoc, lookup, insert, erase, length-erase-le, In, length-insert-le, insert-Distinct,
  erase-Distinct, Bytes_eq, if_cases, nat_eq, count-append, erase_absent, count-erase,
  count-insert_new, insert-All, erase-All, lookup-All, All-imp, lookup_bound,
}
use cotten_router.Dns.Question.{Question}
use cotten_router.Router.Backend.{
  is_retired, matches_question, expired, unexpired, PendingQuery, BackendConn, Reservation,
  reserved, reserve, take_reply, abandon, close_backend, expire_tick, retire,
}
use cotten_router.Router.Backend.Ledger.{
  Event, reserving, replying, ticking, abandoning, closing, retiring, Ledger, book, settle, drain,
  happen, history, start, Accounted, start-Accounted,
}
use cotten_router.Router.Backend.Expiry.{
  unexpired-All, length-unexpired-le, count-unexpired, unexpired-Distinct, All-append,
}

pub take_reply-none :
    (b : BackendConn) (id : ℕ) (reply : Question)
    → lookup id b.pending ≡ none
    → take_reply b id reply ≡ (b, none)
unfolding take_reply
take_reply-none b id reply h = rw (h, take_reply) refl

pub take_reply-some :
    (b : BackendConn) (id : ℕ) (reply : Question) (q : PendingQuery)
    → lookup id b.pending ≡ some q
    → take_reply b id reply ≡ (
        if matches_question q reply
        then (record b { pending = erase id b.pending }, some q)
        else (b, none))
unfolding take_reply
take_reply-some b id reply q h = rw (h, take_reply) refl

length_empty : {A : Type 0} (xs : List A) → length xs ≡ 0 → xs ≡ []
length_empty [] h = refl
length_empty (x ∷ xs) h = absurd (omega arith)

close_backend_empty :
    (b : BackendConn) → b.pending ≡ [] → close_backend b ≡ (record b { is_done = true }, [])
unfolding close_backend
close_backend_empty b h =
    if_cases (λ (r : BackendConn × Assoc ℕ PendingQuery). r ≡ (record b { is_done = true }, []))
      b.is_done (b, []) (record b { is_done = true; pending = [] }, b.pending)
      (λ closed i. (record b { is_done = closed i }, []))
      (λ unclosed i. (record b { is_done = true; pending = sym h i }, h i))

module _ (limit : ℕ) (g : Ledger) (v : Accounted limit g) where
  -- An entry is made.
  abbrev booked : PendingQuery → Ledger
  booked q =
      let b = g.conn in
      record g {
        conn = record b { issued = b.issued + 1; pending = insert b.issued q b.pending };
        entered = (b.issued, q) ∷ g.entered;
      }

  booked-Accounted :
      (q : PendingQuery)
      → g.conn.is_done ≡ false
      → g.conn.issued < 65536
      → length g.conn.pending < limit
      → Accounted limit (booked q)
  booked-Accounted q unclosed room few =
      let b = g.conn in
      let new : lookup b.issued b.pending ≡ none =
        lookup_bound b.issued b.pending v.pending_below in
      record {
        distinct = insert-Distinct b.issued q b.pending v.distinct;
        within = omega (arith, length-insert-le b.issued q b.pending);
        issued = omega arith;
        in_order =
            let e : b.issued + 1 ≡ suc b.issued = omega arith in
            rw e (ap (◌∷◌ b.issued) v.in_order);
        pending_below =
            insert-All (λ (e : ℕ × PendingQuery). e.0 < b.issued + 1) b.issued q b.pending
              (All-imp b.pending (λ e h. omega (arith, h)) v.pending_below) (omega arith);
        pending_entered =
            insert-All (λ e. In e ((b.issued, q) ∷ g.entered)) b.issued q b.pending
              (All-imp b.pending (λ e h. inr h) v.pending_entered) (inl refl);
        left_entered = All-imp g.left (λ e h. inr h) v.left_entered;
        balance = λ p. omega (arith, v.balance p, count-insert_new p b.issued q b.pending new);
        closed_empty = λ h. absurd (cc (unclosed, h));
      }

  reserving-Accounted : (q : PendingQuery) → Accounted limit (happen limit g (reserving q))
  unfolding happen reserve
  reserving-Accounted q =
      let P = λ (r : BackendConn × Reservation). Accounted limit (book g q r) in
      if_cases P g.conn.is_done _ _ (λ h. v)
        (λ unclosed.
          if_cases P (leb 65536 g.conn.issued) _ _ (λ h. v)
            (λ room.
              if_cases P (leb limit (length g.conn.pending)) _ _ (λ h. v)
                (λ few.
                  let id : g.conn.issued % 65536 ≡ g.conn.issued = ground arith in
                  subst
                    (λ i. P (
                      record g.conn {
                        issued = g.conn.issued + 1;
                        pending = insert i q g.conn.pending;
                      },
                      reserved i,
                    ))
                    (sym id) (booked-Accounted q unclosed (ground arith) (ground arith)))))

  -- A reply takes its entry.
  taken : ℕ → PendingQuery → Ledger
  taken id q = record g {
    conn = record g.conn { pending = erase id g.conn.pending };
    left = (id, q) ∷ g.left;
  }

  taken-Accounted :
      (id : ℕ) (q : PendingQuery) → lookup id g.conn.pending ≡ some q → Accounted limit (taken id q)
  unfolding taken
  taken-Accounted id q found =
      let m = g.conn.pending in
      record {
        distinct = erase-Distinct id m v.distinct;
        within = omega (arith, v.within, length-erase-le id m);
        issued = v.issued;
        in_order = v.in_order;
        pending_below =
            erase-All (λ (e : ℕ × PendingQuery). e.0 < g.conn.issued) id m v.pending_below;
        pending_entered = erase-All (λ e. In e g.entered) id m v.pending_entered;
        left_entered =
            (lookup-All (λ e. In e g.entered) id q m v.pending_entered found, v.left_entered);
        balance = λ p. omega (arith, v.balance p, count-erase p id q m v.distinct found);
        closed_empty = λ h. rw (v.closed_empty h) (unfold erase in refl);
      }

  abandoning-Accounted : (id : ℕ) → Accounted limit (happen limit g (abandoning id))
  unfolding happen abandon taken
  abandoning-Accounted id = elim (Option-cases (lookup id g.conn.pending)) [
    | inl absent ↦ rw (absent, erase_absent id g.conn.pending absent) v
    | inr (q, found) ↦ rw found (taken-Accounted id q found)
  ]

  replying-Accounted :
      (id : ℕ) (question : Question) → Accounted limit (happen limit g (replying id question))
  unfolding happen
  replying-Accounted id question = elim (Option-cases (lookup id g.conn.pending)) [
    | inl absent ↦ rw (take_reply-none g.conn id question absent) v
    | inr (q, found) ↦ rw (take_reply-some g.conn id question q found) (
        if_cases (λ r. Accounted limit (settle g id r)) (matches_question q question) _ _
          (λ h. unfold taken in taken-Accounted id q found) (λ h. v))
  ]

  -- Entries leave by their time.
  timed_out : ℕ → Ledger
  timed_out now = record g {
    conn = record g.conn { pending = unexpired now g.conn.pending };
    left = expired now g.conn.pending ++ g.left;
  }

  timed_out-Accounted : (now : ℕ) → Accounted limit (timed_out now)
  unfolding timed_out
  timed_out-Accounted now =
      let m = g.conn.pending in
      let owned = unexpired-All (λ e. In e g.entered) now m v.pending_entered in
      record {
        distinct = unexpired-Distinct now m v.distinct;
        within = omega (arith, v.within, length-unexpired-le now m);
        issued = v.issued;
        in_order = v.in_order;
        pending_below =
            (unexpired-All (λ (e : ℕ × PendingQuery). e.0 < g.conn.issued) now m v.pending_below).0;
        pending_entered = owned.0;
        left_entered = All-append _ (expired now m) g.left owned.1 v.left_entered;
        balance = λ p.
            omega
              (arith, v.balance p, count-unexpired p now m, count-append p (expired now m) g.left);
        closed_empty = λ h. rw (v.closed_empty h) (unfold unexpired in refl);
      }

  closing-Accounted : (failed : Bool) → Accounted limit (happen limit g (closing failed))
  unfolding happen close_backend
  closing-Accounted failed =
      if_cases (λ r. Accounted limit (drain g r)) g.conn.is_done _ _ (λ h. v)
        (λ unclosed. record {
          distinct = tt;
          within = omega arith;
          issued = v.issued;
          in_order = v.in_order;
          pending_below = tt;
          pending_entered = tt;
          left_entered = All-append _ g.conn.pending g.left v.pending_entered v.left_entered;
          balance = λ p. omega (arith, v.balance p, count-append p g.conn.pending g.left);
          closed_empty = λ h. refl;
        })

  retiring-Accounted : (now timeout : ℕ) → Accounted limit (happen limit g (retiring now timeout))
  unfolding happen retire
  retiring-Accounted now timeout = record {
    distinct = v.distinct;
    within = v.within;
    issued = v.issued;
    in_order = v.in_order;
    pending_below = v.pending_below;
    pending_entered = v.pending_entered;
    left_entered = v.left_entered;
    balance = v.balance;
    closed_empty = v.closed_empty;
  }

module _ (limit : ℕ) where
  closed-Accounted :
      (g : Ledger)
      → Accounted limit g
      → g.conn.pending ≡ []
      → Accounted limit (record g { conn = record g.conn { is_done = true } })
  closed-Accounted g v empty = record {
    distinct = v.distinct;
    within = v.within;
    issued = v.issued;
    in_order = v.in_order;
    pending_below = v.pending_below;
    pending_entered = v.pending_entered;
    left_entered = v.left_entered;
    balance = v.balance;
    closed_empty = λ h. empty;
  }

  ticking-Accounted :
      (g : Ledger) (now : ℕ) → Accounted limit g → Accounted limit (happen limit g (ticking now))
  unfolding happen expire_tick timed_out
  ticking-Accounted g now v =
      let late = timed_out-Accounted limit g v now in
      let gone = expired now g.conn.pending in
      if_cases (λ r. Accounted limit (drain g r))
        (is_retired g.conn.retire_at now && length (unexpired now g.conn.pending) == 0) _ _
        (λ retired.
          let empty : unexpired now g.conn.pending ≡ [] =
            length_empty _ (ground (arith, retired)) in
          rw
            (
              close_backend_empty (record g.conn { pending = unexpired now g.conn.pending }) empty,
              append-nil gone,
            )
            (closed-Accounted (timed_out limit g v now) late empty))
        (λ h. late)

  pub happen-Accounted :
      (g : Ledger) (e : Event) → Accounted limit g → Accounted limit (happen limit g e)
  happen-Accounted g (reserving q) v = reserving-Accounted limit g v q
  happen-Accounted g (replying id question) v = replying-Accounted limit g v id question
  happen-Accounted g (abandoning id) v = abandoning-Accounted limit g v id
  happen-Accounted g (ticking now) v = ticking-Accounted g now v
  happen-Accounted g (closing failed) v = closing-Accounted limit g v failed
  happen-Accounted g (retiring now timeout) v = retiring-Accounted limit g v now timeout

  pub history-Accounted :
      (g : Ledger) (es : List Event) → Accounted limit g → Accounted limit (history limit g es)
  unfolding history
  history-Accounted g [] v = v
  history-Accounted g (e ∷ es) v = history-Accounted (happen limit g e) es (happen-Accounted g e v)

  -- Whatever happens on a new socket, in whatever order, its identifiers are given out in order and
  -- each once, at most 2^16 of them; no identifier is pending twice and no more than the limit are
  -- pending; and by any test on the entries, those that have left and those still pending are
  -- together as many as those that were entered.
  pub start-history-Accounted :
      (address : Bytes) (es : List Event) → Accounted limit (history limit (start address) es)
  start-history-Accounted address es =
      history-Accounted (start address) es (start-Accounted limit address)
