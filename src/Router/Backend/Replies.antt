-- ===== src/Router/Backend/Replies.antt =====
-- Which query a reply is given to, on one backend socket.
use cotten_router.Prelude.{
  ℕ, zero, suc, ◌+◌, ◌≤◌, ◌≡◌, refl, sym, subst, ◌∙◌, ◌↔◌, inl, inr, true, false, Option, none,
  some, List, [], ◌∷◌, map, arith, ltb, ◌==◌, if◌then◌else◌, Option-cases, Bytes, bytes_eq_iff,
  lookup, lookup-erase, In, Bytes_eq, if_cases, nat_eq, count, count-append, count-erase,
  lookup-All,
}
use cotten_router.Dns.Question.{Question}
use cotten_router.Router.Backend.{
  PendingQuery, BackendConn, take_reply, matches_question, Reservation, reserved, refused,
  exhausted, reserve, abandon, close_backend, expire_tick,
}
use cotten_router.Router.Backend.Ledger.{
  Event, reserving, replying, ticking, abandoning, closing, retiring, Ledger, Accounted, below,
  book, settle, drain, happen, history, start,
}
use cotten_router.Router.Backend.Account.{
  take_reply-none, take_reply-some, start-history-Accounted, happen-Accounted, history-Accounted,
}

-- The same name, type and class; where the question ends is not compared.
pub record SameQuestion (asked reply : Question) : Type 0 where
  pub name : asked.name ≡ reply.name
  pub type : asked.type ≡ reply.type
  pub class : asked.class ≡ reply.class

matches_question_iff :
    (q : PendingQuery) (reply : Question)
    → (matches_question q reply ≡ true) ↔ SameQuestion q.question reply
unfolding matches_question
matches_question_iff q reply =
    let names = bytes_eq_iff q.question.name reply.name in
    (
      λ h. record {
        name = ground (arith, names);
        type = ground (arith, h);
        class = ground (arith, h);
      },
      λ s. ground (arith, names, s.name, s.type, s.class),
    )

-- How often an identifier stands among those given out.
count-below :
    (id n : ℕ) (entries : List (ℕ × PendingQuery))
    → map (λ e. e.0) entries ≡ below n
    → count (λ e. e.0 == id) entries ≡ (if ltb id n then 1 else 0)
count-below id zero [] h = ground arith
count-below id (suc n) ((k, q) ∷ entries) h =
    let key : k ≡ n = cc in
    let rest : map (λ e. e.0) entries ≡ below n = cc in
    ground (arith, count-below id n entries rest, key)
count-below id (suc n) [] h = absurd (cc h)
count-below id zero (e ∷ entries) h = absurd (cc h)

-- An entry of this number has left.
abbrev HasLeft : ℕ → Ledger → Type 0
HasLeft id g = 1 ≤ count (λ e. e.0 == id) g.left

settle-HasLeft :
    (g : Ledger) (id n : ℕ) (r : BackendConn × Option PendingQuery)
    → HasLeft id g
    → HasLeft id (settle g n r)
settle-HasLeft g id n (b, none) h = h
settle-HasLeft g id n (b, some q) h = ground (arith, h)

drain-HasLeft :
    (g : Ledger) (id : ℕ) (r : BackendConn × List (ℕ × PendingQuery))
    → HasLeft id g
    → HasLeft id (drain g r)
drain-HasLeft g id (b, gone) h = omega (arith, h, count-append (λ e. e.0 == id) gone g.left)

book-HasLeft :
    (g : Ledger) (id : ℕ) (q : PendingQuery) (r : BackendConn × Reservation)
    → HasLeft id g
    → HasLeft id (book g q r)
book-HasLeft g id q (b, reserved n) h = h
book-HasLeft g id q (b, refused) h = h
book-HasLeft g id q (b, exhausted) h = h

history-HasLeft :
    (limit id : ℕ) (g : Ledger) (es : List Event) → HasLeft id g → HasLeft id (history limit g es)
unfolding history happen
history-HasLeft limit id g [] h = h
history-HasLeft limit id g (e ∷ es) h = history-HasLeft limit id (happen limit g e) es (step e)
  where
    step : (e : Event) → HasLeft id (happen limit g e)
    step (reserving q) = book-HasLeft g id q (reserve g.conn q limit) h
    step (replying n question) = settle-HasLeft g id n (take_reply g.conn n question) h
    step (ticking now) = drain-HasLeft g id (expire_tick g.conn now) h
    step (abandoning n) = settle-HasLeft g id n (abandon g.conn n) h
    step (closing failed) = drain-HasLeft g id (close_backend g.conn) h
    step (retiring now timeout) = h

-- What a reply does to a socket, by what it gives: the query that is pending under its identifier and
-- asks its question, and then this entry is gone and no later reply gets an entry of this identifier;
-- or nothing, and then nothing changes.
pub data Answers (limit : ℕ) (g : Ledger) (id : ℕ) (reply : Question) (b : BackendConn)
    : Option PendingQuery → Type 0 where
  given :
      (q : PendingQuery)
      → In (id, q) g.entered
      → lookup id g.conn.pending ≡ some q
      → SameQuestion q.question reply
      → b ≡ record g.conn { pending = b.pending }
      → ((j : ℕ) → (id == j) ≡ false → lookup j b.pending ≡ lookup j g.conn.pending)
      → ((es : List Event) (again : Question)
          → (take_reply (history limit (happen limit g (replying id reply)) es).conn id again).1
            ≡ none)
      → Answers limit g id reply b (some q)
  nothing :
      b ≡ g.conn
      → ((q : PendingQuery) → lookup id g.conn.pending ≡ some q → ¬ SameQuestion q.question reply)
      → Answers limit g id reply b none

module _ (limit : ℕ) (address : Bytes) (es : List Event) (id : ℕ) (reply : Question) where
  abbrev ledger : Ledger
  ledger = history limit (start address) es

  abbrev later : List Event → Ledger
  later more = history limit (happen limit ledger (replying id reply)) more

  later-Accounted : (more : List Event) → Accounted limit (later more)
  later-Accounted more =
      history-Accounted limit (happen limit ledger (replying id reply)) more (
        happen-Accounted limit ledger (replying id reply)
          (start-history-Accounted limit address es))

  -- Once it has left, no reply gets the identifier again.
  no_more :
      (more : List Event) (again : Question)
      → HasLeft id (happen limit ledger (replying id reply))
      → (take_reply (later more).conn id again).1 ≡ none
  no_more more again left =
      let g = later more in
      let v = later-Accounted more in
      let once = v.balance (λ e. e.0 == id) ∙ count-below id g.conn.issued g.entered v.in_order in
      let still = history-HasLeft limit id (happen limit ledger (replying id reply)) more left in
      elim (Option-cases (lookup id g.conn.pending)) [
        | inl absent ↦ rw (take_reply-none g.conn id again absent) refl
        | inr (q, found) ↦
            let c = count-erase (λ e. e.0 == id) id q g.conn.pending v.distinct found in
            absurd (ground (arith, once, still, c))
      ]

  taken_left :
      (q : PendingQuery)
      → lookup id ledger.conn.pending ≡ some q
      → matches_question q reply ≡ true
      → HasLeft id (happen limit ledger (replying id reply))
  unfolding happen
  taken_left q found same = rw (take_reply-some ledger.conn id reply q found, same) (ground arith)

  found-Answers :
      (q : PendingQuery)
      → lookup id ledger.conn.pending ≡ some q
      → let r = take_reply ledger.conn id reply in Answers limit ledger id reply r.0 r.1
  found-Answers q found = rw (take_reply-some ledger.conn id reply q found) (
      if_cases (λ (r : BackendConn × Option PendingQuery). Answers limit ledger id reply r.0 r.1)
        (matches_question q reply) _ _
        (λ same.
          given q
            (lookup-All (λ e. In e ledger.entered) id q ledger.conn.pending
              (start-history-Accounted limit address es).pending_entered found)
            found ((matches_question_iff q reply).0 same) refl
            (λ j other. lookup-erase id j ledger.conn.pending ∙ rw other refl)
            (λ more again. no_more more again (taken_left q found same)))
        (λ other. nothing refl (λ p at_id asks.
          let this : q ≡ p = let e : some q ≡ some p = sym found ∙ at_id in cc in
          let same : matches_question p reply ≡ true = (matches_question_iff p reply).1 asks in
          let wrong : matches_question p reply ≡ false =
            subst (λ x. matches_question x reply ≡ false) this other in
          absurd (let bad : true ≡ false = sym same ∙ wrong in cc))))

-- Whatever has happened on a socket, a reply is given the query that was entered under its identifier,
-- is pending under it and asks the same name, type and class, if there is one; this entry alone is then
-- removed, and whatever happens later no reply is given an entry of this identifier. If there is none,
-- the reply is given nothing and changes nothing.
pub take_reply-Answers :
    (limit : ℕ) (address : Bytes) (es : List Event) (id : ℕ) (reply : Question)
    → let g = history limit (start address) es in
      let r = take_reply g.conn id reply in Answers limit g id reply r.0 r.1
take_reply-Answers limit address es id reply =
    let g = history limit (start address) es in
    elim (Option-cases (lookup id g.conn.pending)) [
      | inl absent ↦
          rw (take_reply-none g.conn id reply absent)
            (nothing refl (λ q found. absurd (let bad : none ≡ some q = sym absent ∙ found in cc)))
      | inr (q, found) ↦ found-Answers limit address es id reply q found
    ]

-- Whatever happens on a socket, each identifier has left or is pending once if it was given out,
-- and never otherwise: no reply, timeout, giving up or shutdown settles a query twice.
pub history_once :
    (limit : ℕ) (address : Bytes) (es : List Event) (id : ℕ)
    → let g = history limit (start address) es in
      count (λ e. e.0 == id) g.left + count (λ e. e.0 == id) g.conn.pending
      ≡ (if ltb id g.conn.issued then 1 else 0)
history_once limit address es id =
    let g = history limit (start address) es in
    let v = start-history-Accounted limit address es in
    v.balance (λ e. e.0 == id) ∙ count-below id g.conn.issued g.entered v.in_order
