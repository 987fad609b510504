-- ===== src/Router/Greeting/Whole.antt =====
-- What readTLSClientHello gives of the stream, and that it always gives something.
use cotten_router.Prelude.{
  ℕ, zero, suc, ◌+◌, ◌≤◌, ◌<◌, ◌≡◌, refl, sym, ap, ◌∙◌, inl, inr, Bool, true, false, not, ◌||◌, [],
  ◌++◌, append_assoc, arith, ltb, leb, leb→le, ◌==◌, Bool-cases, Bytes, length, take, drop,
  length-append, length-take, take-append-drop, Result, ok, err, get_or, Bytes_eq, if_cases, nat_eq,
}
use mathlib.Core.Path.{ap₂}
use cotten_router.Dns.Text.{Unicode}
use cotten_router.Router.Frame.{IoError, read_full}
use cotten_router.Router.Hello.{HelloError}
use cotten_router.Router.Hello.Total.{Answers, parse_server_name_total}
use cotten_router.Router.Greeting.{
  GreetingError, unreadable, exceeds_limit, not_client_hello, bad_hello, Greeting, failed_with,
  after_read, parsed_name, record_size, handshake_size, with_handshake, read_records,
  read_tls_client_hello,
}

-- The whole of a ClientHello has been read: it has a server name, or parseServerName refuses it.
abbrev pub has_hello : Result GreetingError Bytes → Bool
has_hello (ok name) = true
has_hello (err (bad_hello e)) = true
has_hello _ = false

-- Neither a panic nor out of fuel.
abbrev pub has_answer : {E : Type 0} → Result E Bytes → Bool
has_answer (ok name) = true
has_answer (err e) = true
has_answer _ = false

-- A greeting that reading the stream may give.
pub record Faithful (max_size : ℕ) (stream : Bytes) (g : Greeting) : Type 0 where
  pub answer : has_answer g.server_name ≡ true
  pub whole :
      has_hello g.server_name ≡ true
      → (stream ≡ g.initial ++ g.rest) × (length g.initial ≤ max_size)

failed-Faithful :
    (max_size : ℕ) (stream rest : Bytes) (e : GreetingError)
    → has_hello (err e) ≡ false
    → Faithful max_size stream (failed_with e rest)
failed-Faithful max_size stream rest e h = record {
  answer = refl;
  whole = λ t. absurd (ground (arith, h, t));
}

-- A full read gives the front of the stream, or an error.
after_read_cases :
    (P : Greeting → Type 0) (k : Bytes → Bytes → Greeting) (stream : Bytes) (n : ℕ)
    → (leb n (length stream) ≡ true → P (k (take n stream) (drop n stream)))
    → ((e : IoError) (rest : Bytes) → P (failed_with (unreadable e) rest))
    → P (after_read k (read_full stream n))
unfolding read_full
after_read_cases P k stream n found missing = elim (Bool-cases (leb n (length stream))) [
  | inl t ↦ rw t (found t)
  | inr f ↦ rw f (missing _ [])
]

parsed_name-answer : (r : Result HelloError Bytes) → Answers r → has_answer (parsed_name r) ≡ true
parsed_name-answer r (inl (name, e)) = rw e refl
parsed_name-answer r (inr (e, f)) = rw f refl

taken : (n : ℕ) (s : Bytes) → n ≤ length s → length (take n s) ≡ n
taken n s h = omega (arith, length-take n s, h)

-- A record read is a record kept.
kept :
    {all : Bytes} (stream raw : Bytes) (size : ℕ)
    → all ≡ raw ++ stream
    → all ≡ (raw ++ (take 5 stream ++ take size (drop 5 stream))) ++ drop size (drop 5 stream)
kept stream raw size e =
    let rest = drop 5 stream in
    e
    ∙ ap (λ s. raw ++ s)
        (sym (take-append-drop 5 stream)
          ∙ ap (λ s. take 5 stream ++ s) (sym (take-append-drop size rest))
          ∙ sym (append_assoc (take 5 stream) (take size rest) (drop size rest)))
    ∙ sym (append_assoc raw (take 5 stream ++ take size rest) (drop size rest))

module _ (u : Unicode) (max_size : ℕ) (all : Bytes) where
  with_handshake-Faithful :
      (onward : Greeting) (rest raw handshake : Bytes)
      → all ≡ raw ++ rest
      → length raw ≤ max_size
      → Faithful max_size all onward
      → Faithful max_size all (with_handshake u max_size onward rest raw handshake)
  unfolding with_handshake
  with_handshake-Faithful onward rest raw handshake e le on =
      let P = Faithful max_size all in
      if_cases P (ltb (length handshake) 4) _ _ (λ _. on)
        (λ _.
          if_cases P (not (get_or handshake 0 0 == 1)) _ _
            (λ _. failed-Faithful max_size all rest not_client_hello refl)
            (λ _.
              if_cases P (ltb max_size (handshake_size handshake + 4)) _ _
                (λ _. failed-Faithful max_size all rest exceeds_limit refl)
                (λ _.
                  if_cases P (leb (handshake_size handshake + 4) (length handshake)) _ _
                    (λ _. record {
                      answer = parsed_name-answer _ (parse_server_name_total u _);
                      whole = λ _. (e, le);
                    })
                    (λ _. on))))

  -- The round of a record that fits.
  one_record :
      (fuel : ℕ) (stream raw handshake : Bytes) (size : ℕ)
      → all ≡ raw ++ stream
      → max_size < suc fuel + length raw
      → leb 5 (length stream) ≡ true
      → ltb size 1 || ltb max_size (length raw + 5 + size) ≡ false
      → leb size (length (drop 5 stream)) ≡ true
      → ((raw' handshake' : Bytes)
          → all ≡ raw' ++ drop size (drop 5 stream)
          → length raw' ≤ max_size
          → max_size < fuel + length raw'
          → Faithful max_size all
              (read_records u max_size fuel (drop size (drop 5 stream)) raw' handshake'))
      → (let body = take size (drop 5 stream) in
          let raw' = raw ++ (take 5 stream ++ body) in
          Faithful max_size all (
            with_handshake u max_size
              (read_records u max_size fuel (drop size (drop 5 stream)) raw' (handshake ++ body))
              (drop size (drop 5 stream))
              raw'
              (handshake ++ body)))
  one_record fuel stream raw handshake size e enough header fits full next =
      let body = take size (drop 5 stream) in
      let left = drop size (drop 5 stream) in
      let raw' = raw ++ (take 5 stream ++ body) in
      let split : all ≡ raw' ++ left = kept stream raw size e in
      let n : length raw' ≡ length raw + (5 + size) =
        length-append raw (take 5 stream ++ body)
        ∙ ap (λ k. length raw + k)
            (length-append (take 5 stream) body
              ∙ ap₂ ◌+◌ (taken 5 stream (leb→le _ _ header))
                  (taken size (drop 5 stream) (leb→le _ _ full))) in
      let le : length raw' ≤ max_size = ground (arith, n, fits) in
      let more : max_size < fuel + length raw' = ground (arith, n, fits, enough) in
      with_handshake-Faithful _ left raw' (handshake ++ body) split le
        (next raw' (handshake ++ body) split le more)

  read_records-Faithful :
      (fuel : ℕ) (stream raw handshake : Bytes)
      → all ≡ raw ++ stream
      → length raw ≤ max_size
      → max_size < fuel + length raw
      → Faithful max_size all (read_records u max_size fuel stream raw handshake)
  unfolding read_records
  read_records-Faithful zero stream raw handshake e le enough = absurd (omega (arith, le, enough))
  read_records-Faithful (suc fuel) stream raw handshake e le enough =
      let P = Faithful max_size all in
      after_read_cases P _ stream 5
        (λ t.
          if_cases P (not (get_or (take 5 stream) 0 0 == 22)) _ _
            (λ _. record { answer = refl; whole = λ h. absurd (cc h) })
            (λ _.
              if_cases P
                (ltb (record_size (take 5 stream)) 1
                  || ltb max_size (length raw + 5 + record_size (take 5 stream)))
                _ _ (λ _. failed-Faithful max_size all (drop 5 stream) exceeds_limit refl)
                (λ fits.
                  after_read_cases P _ (drop 5 stream) (record_size (take 5 stream))
                    (λ full.
                      one_record fuel stream raw handshake (record_size (take 5 stream)) e enough t
                        fits full
                        (λ raw' handshake' a b c.
                          read_records-Faithful fuel _ raw' handshake' a b c))
                    (λ f rest. failed-Faithful max_size all rest (unreadable f) refl))))
        (λ f rest. failed-Faithful max_size all rest (unreadable f) refl)

-- Whatever a client sends, readTLSClientHello answers, with a ClientHello or an error: its loop ends.
-- Where it has read a whole ClientHello, the bytes that it gives to be passed on are exactly those that
-- it took from the stream, they are no more than the limit, and the rest is still to be read: the backend
-- gets the stream that the client sent.
pub read_tls_client_hello-Faithful :
    (u : Unicode) (max_size : ℕ) (stream : Bytes)
    → Faithful max_size stream (read_tls_client_hello u max_size stream)
unfolding read_tls_client_hello
read_tls_client_hello-Faithful u max_size stream =
    read_records-Faithful u max_size stream (suc max_size) stream [] [] refl (omega arith)
      (omega arith)
