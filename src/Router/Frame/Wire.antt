-- ===== src/Router/Frame/Wire.antt =====
-- What a reader gets of what the writer has sent.
use cotten_router.Prelude.{
  ℕ, zero, suc, ◌+◌, ◌*◌, ◌≤◌, ◌<◌, ◌≡◌, refl, sym, ap, subst, ◌∙◌, inl, inr, true, false, ◌||◌,
  List, [], ◌∷◌, ◌++◌, append-nil, arith, ltb, leb, leb→le, le→leb, ◌==◌, if◌then◌else◌, Bool-cases,
  Bytes, length, take, drop, length-append, take-length-append, drop-length-append, Result, ok, err,
  high_byte, low_byte, get_or, nat_eq,
}
use cotten_router.Router.Frame.{
  unexpected_eof, eof, IoError, read_full, read_body, read_tcp_message, WriteCall, size_prefix,
  write_framed,
}
use cotten_router.Router.Frame.Sent.{Sends, frame, write_framed-Sends, Sends-prefix}

read_full-append :
    (front rest : Bytes) → read_full (front ++ rest) (length front) ≡ (ok front, rest)
unfolding read_full
read_full-append front rest =
    rw (le→leb (length front) (length (front ++ rest)) (omega (arith, length-append front rest)))
      (λ i. (ok (take-length-append front rest i), drop-length-append front rest i))

-- A reader whose bytes begin with a frame gives the packet, and has the rest left.
read_tcp_message-frame :
    (packet more : Bytes) (max_size : ℕ)
    → 12 ≤ length packet
    → length packet ≤ max_size
    → length packet < 65536
    → read_tcp_message (frame packet ++ more) max_size ≡ (ok packet, more)
unfolding read_tcp_message read_body
read_tcp_message-frame packet more max_size lo hi small =
    let size : high_byte (length packet) * 256 + low_byte (length packet) ≡ length packet =
      omega arith in
    let fits : (ltb (length packet) 12 || ltb max_size (length packet)) ≡ false = ground arith in
    rw (read_full-append (size_prefix packet) (packet ++ more), size, fits)
      (read_full-append packet more)

take-append-le : (n : ℕ) (xs ys : Bytes) → n ≤ length xs → take n (xs ++ ys) ≡ take n xs
take-append-le zero xs ys h = refl
take-append-le (suc n) (x ∷ xs) ys h = ap (◌∷◌ x) (take-append-le n xs ys (omega arith))
take-append-le (suc n) [] ys h = absurd (omega arith)

drop-append-le : (n : ℕ) (xs ys : Bytes) → n ≤ length xs → drop n (xs ++ ys) ≡ drop n xs ++ ys
drop-append-le zero xs ys h = refl
drop-append-le (suc n) (x ∷ xs) ys h = drop-append-le n xs ys (omega arith)
drop-append-le (suc n) [] ys h = absurd (omega arith)

-- What a read has found is found as well when more bytes follow.
read_full-more :
    (s t : Bytes) (n : ℕ)
    → leb n (length s) ≡ true
    → read_full (s ++ t) n ≡ (ok (take n s), drop n s ++ t)
unfolding read_full
read_full-more s t n h =
    let fits = leb→le n (length s) h in
    rw (le→leb n (length (s ++ t)) (omega (arith, length-append s t)))
      (λ i. (ok (take-append-le n s t fits i), drop-append-le n s t fits i))

ok-inj :
    {x y r t : Bytes}
    → ◌≡◌ {A = Result IoError Bytes × Bytes} (ok x, r) (ok y, t)
    → (x ≡ y) × (r ≡ t)
ok-inj {x} h = (ap (λ (v : Result IoError Bytes × Bytes). value v.0) h, ap (λ v. v.1) h)
  where
    value : Result IoError Bytes → Bytes
    value (ok v) = v
    value _ = x

read_full-ok :
    (s : Bytes) (n : ℕ) (q r : Bytes)
    → read_full s n ≡ (ok q, r)
    → (leb n (length s) ≡ true) × (q ≡ take n s) × (r ≡ drop n s)
unfolding read_full
read_full-ok s n q r h = elim (Bool-cases (leb n (length s))) [
  | inl fits ↦ let e = ok-inj (rw fits at h) in (fits, sym e.0, sym e.1)
  | inr short ↦ absurd (cc (rw short at h))
]

read_body-more :
    (t : Bytes) (max_size : ℕ) (q r prefix rest : Bytes)
    → read_body max_size (ok prefix, rest) ≡ (ok q, r)
    → read_body max_size (ok prefix, rest ++ t) ≡ (ok q, r ++ t)
unfolding read_body
read_body-more t max_size q r prefix rest h =
    let size = get_or prefix 0 0 * 256 + get_or prefix 1 0 in
    elim (Bool-cases (ltb size 12 || ltb max_size size)) [
      | inl bad ↦ absurd (cc (rw bad at h))
      | inr good ↦
          let found = read_full-ok rest size q r (rw good at h) in
          rw good
            (read_full-more rest t size found.0 ∙ (λ i. (ok (sym found.1 i), sym found.2 i ++ t)))
    ]

err-not_ok :
    (max_size : ℕ) (q r rest : Bytes) (e : IoError)
    → read_body max_size (err e, rest) ≡ (ok q, r)
    → ⊥
unfolding read_body
err-not_ok max_size q r rest e h = cc

read_tcp_message-more :
    (s t : Bytes) (max_size : ℕ) (q r : Bytes)
    → read_tcp_message s max_size ≡ (ok q, r)
    → read_tcp_message (s ++ t) max_size ≡ (ok q, r ++ t)
unfolding read_tcp_message
read_tcp_message-more s t max_size q r h = elim (Bool-cases (leb 2 (length s))) [
  | inl fits ↦
      let first : read_full s 2 ≡ (ok (take 2 s), drop 2 s) = unfold read_full in rw fits refl in
      rw (read_full-more s t 2 fits)
        (read_body-more t max_size q r (take 2 s) (drop 2 s) (rw first at h))
  | inr short ↦
      let none_read : read_full s 2 ≡ (err (if length s == 0 then eof else unexpected_eof), []) =
        unfold read_full in rw short refl in
      absurd (err-not_ok max_size q r [] _ (rw none_read at h))
]

-- A packet that writeFramedDNS has written whole is what readTCPMessage reads from the bytes sent,
-- whatever pieces the writer took them in; nothing of what follows is lost. The packet has at least
-- 12 bytes, no more than the reader's limit, and fewer than 2^16.
pub read_tcp_message-write_framed :
    (calls left : List WriteCall) (packet sent more : Bytes) (max_size : ℕ)
    → 12 ≤ length packet
    → length packet ≤ max_size
    → length packet < 65536
    → write_framed calls packet ≡ (ok left, sent)
    → read_tcp_message (sent ++ more) max_size ≡ (ok packet, more)
read_tcp_message-write_framed calls left packet sent more max_size lo hi small h =
    let whole : sent ≡ frame packet =
      subst (Sends (frame packet)) h (write_framed-Sends calls packet) in
    rw whole (read_tcp_message-frame packet more max_size lo hi small)

append-empty : (q r : Bytes) → r ++ q ≡ [] → r ≡ []
append-empty q [] h = refl
append-empty q (b ∷ r) h = absurd (cc h)

-- However a write of such a packet ends, a reader of the bytes sent so far that reads a message at
-- all reads this packet, and nothing is left.
pub write_framed-sent :
    (calls : List WriteCall) (packet sent q rest : Bytes) (r : Result IoError (List WriteCall))
    (max_size : ℕ)
    → 12 ≤ length packet
    → length packet ≤ max_size
    → length packet < 65536
    → write_framed calls packet ≡ (r, sent)
    → read_tcp_message sent max_size ≡ (ok q, rest)
    → (q ≡ packet) × (rest ≡ [])
write_framed-sent calls packet sent q rest r max_size lo hi small h found =
    let (t, whole) =
      Sends-prefix (frame packet) r sent
        (subst (Sends (frame packet)) h (write_framed-Sends calls packet)) in
    let longer = read_tcp_message-more sent t max_size q rest found in
    let exact : read_tcp_message (sent ++ t) max_size ≡ (ok packet, []) =
      ap (λ s. read_tcp_message s max_size) (sym (append-nil (frame packet) ∙ whole))
      ∙ read_tcp_message-frame packet [] max_size lo hi small in
    let e = ok-inj (sym longer ∙ exact) in (e.0, append-empty t rest e.1)
