-- ===== src/Router/TcpQuery/Answered.antt =====
-- What a client of DNS over TCP is sent for a query.
use cotten_router.Prelude.{
  ℕ, ◌+◌, ◌≤◌, ◌≡◌, refl, ◌∙◌, ◌⊎◌, inl, inr, Bool, true, false, not, ◌||◌, Option, none, some,
  List, ◌∷◌, arith, ltb, ◌==◌, Bytes, codes, bytes_eq, bytes_eq_iff, length, Result, ok, err, panic,
  no_fuel, Bytes_eq, if_cases, nat_eq,
}
use cotten_router.Dns.Text.{Unicode}
use cotten_router.Dns.Question.{WireError, Question, parse_question, parse_reply_question}
use cotten_router.Dns.Response.{error_response, refused_response}
use cotten_router.Guard.Admission.{allow_response}
use cotten_router.Router.Table.{RouteEntry, match_route}
use cotten_router.Router.TcpQuery.{
  Desk, Upstream, unreachable, unwritten, unread, replied, Outside, write_tcp_message, failed,
  count_sent, write_counted, id_of, is_echo, or_bridged, give_up, over_udp, over_tcp, with_match,
  with_question, handle_tcp_query,
}

-- The reply of a TCP backend is one to this very query.
pub record Echo (u : Unicode) (packet m : Bytes) : Type 0 where
  pub question : Question
  pub reply : Question
  pub asked : parse_question u packet ≡ ok question
  pub replied : parse_reply_question u m ≡ ok reply
  pub id : id_of m ≡ id_of packet
  pub name : reply.name ≡ question.name
  pub type : reply.type ≡ question.type
  pub class : reply.class ≡ question.class

-- What may be sent in answer to the query.
pub data Answer (u : Unicode) (max_size : ℕ) (o : Outside) (packet : Bytes) : Bytes → Type 0 where
  refusal : Answer u max_size o packet (refused_response packet)
  failure : Answer u max_size o packet (error_response packet 2)
  probe_or_bridged :
      (m : Bytes)
      → or_bridged o.probe o.bridged ≡ some m
      → length m ≤ max_size
      → Answer u max_size o packet m
  echo : (m : Bytes) → o.upstream ≡ replied m → Echo u packet m → Answer u max_size o packet m

-- Nothing has been sent, or one answer.
abbrev pub Sent : (Bytes → Type 0) → Desk → Desk → Type 0
Sent P d d' = (d'.sent ≡ d.sent) ⊎ ((m : Bytes) × (d'.sent ≡ m ∷ d.sent) × P m)

module _ (u : Unicode) (max_size : ℕ) (o : Outside) (packet : Bytes) where
  abbrev P : Bytes → Type 0
  P = Answer u max_size o packet

  write-Sent : (d : Desk) (m : Bytes) → P m → Sent P d (write_tcp_message o d m).0
  unfolding write_tcp_message
  write-Sent d m a =
      let Q = λ (r : Desk × Bool). Sent P d r.0 in
      if_cases Q (length m == 0 || ltb 65535 (length m)) _ _ (λ _. inl refl)
        (λ _.
          if_cases Q (not (allow_response d.guard (length m + 2) o.now).1) _ _ (λ _. inl refl)
            (λ _. inr (m, refl, a)))

  count_sent-Sent :
      (r : RouteEntry) (m : Bytes) (otherwise : Desk → Desk) (d : Desk) (w : Desk × Bool)
      → ((e : Desk) → (otherwise e).sent ≡ e.sent)
      → Sent P d w.0
      → Sent P d (count_sent r m otherwise w)
  count_sent-Sent r m otherwise d (e, true) same s = s
  count_sent-Sent r m otherwise d (e, false) same (inl h) = inl (same e ∙ h)
  count_sent-Sent r m otherwise d (e, false) same (inr (n, h, a)) = inr (n, same e ∙ h, a)

  write_counted-Sent :
      (r : RouteEntry) (d : Desk) (m : Bytes) → P m → Sent P d (write_counted o r d m)
  unfolding write_counted
  write_counted-Sent r d m a =
      count_sent-Sent r m (λ d'. d') d (write_tcp_message o d m) (λ e. refl) (write-Sent d m a)

  give_up-Sent : (r : RouteEntry) (d : Desk) → Sent P d (give_up u max_size o packet r d)
  give_up-Sent r d =
      if_cases (Sent P d) o.cancelled _ _ (λ _. inl refl)
        (λ _. write_counted-Sent r (failed d r) (error_response packet 2) failure)

  over_udp-Sent :
      (r : RouteEntry) (d : Desk) (response : Option Bytes)
      → or_bridged o.probe o.bridged ≡ response
      → Sent P d (over_udp u max_size o packet r d response)
  over_udp-Sent r d none e = give_up-Sent r d
  over_udp-Sent r d (some m) e =
      if_cases (Sent P d) (ltb max_size (length m)) _ _ (λ _. give_up-Sent r d)
        (λ fits. write_counted-Sent r d m (probe_or_bridged m e (ground (arith, fits))))

  echoed :
      (question : Question) (m : Bytes) (r : Result WireError Question)
      → parse_question u packet ≡ ok question
      → parse_reply_question u m ≡ r
      → is_echo packet question m r ≡ true
      → Echo u packet m
  echoed question m (ok reply) asked parsed h = record {
    question = question;
    reply = reply;
    asked = asked;
    replied = parsed;
    id = ground (arith, h);
    name = (bytes_eq_iff reply.name question.name).0 (ground (arith, h));
    type = ground (arith, h);
    class = ground (arith, h);
  }
  echoed question m (err e) asked parsed h = absurd (cc h)
  echoed question m panic asked parsed h = absurd (cc h)
  echoed question m no_fuel asked parsed h = absurd (cc h)

  over_tcp-Sent :
      (r : RouteEntry) (question : Question) (d : Desk) (up : Upstream)
      → parse_question u packet ≡ ok question
      → o.upstream ≡ up
      → Sent P d (over_tcp u max_size o packet r question d up)
  over_tcp-Sent r question d unreachable asked e =
      write_counted-Sent r d (error_response packet 2) failure
  over_tcp-Sent r question d unwritten asked e = inl refl
  over_tcp-Sent r question d unread asked e = inl refl
  over_tcp-Sent r question d (replied m) asked e =
      if_cases (Sent P d) (is_echo packet question m (parse_reply_question u m)) _ _
        (λ h.
          count_sent-Sent r m (λ d'. failed d' r) d (write_tcp_message o d m) (λ e. refl)
            (write-Sent d m (echo m e (echoed question m (parse_reply_question u m) asked refl h))))
        (λ _. write_counted-Sent r (failed d r) (error_response packet 2) failure)

  with_match-Sent :
      (refuses : Bool) (question : Question) (d : Desk) (route : Option RouteEntry)
      → parse_question u packet ≡ ok question
      → Sent P d (with_match u max_size o packet refuses question d route)
  with_match-Sent refuses question d none asked =
      if_cases (Sent P d) refuses _ _ (λ _. write-Sent d (refused_response packet) refusal)
        (λ _. inl refl)
  with_match-Sent refuses question d (some r) asked =
      if_cases (Sent P d) (bytes_eq r.tcp_backend (codes "udp")) _ _
        (λ _. over_udp-Sent r _ (or_bridged o.probe o.bridged) refl)
        (λ _.
          if_cases (Sent P d) (bytes_eq r.tcp_backend (codes "disabled")) _ _
            (λ _. write_counted-Sent r _ (error_response packet 2) failure)
            (λ _. over_tcp-Sent r question _ o.upstream asked refl))

  with_question-Sent :
      (refuses : Bool) (table : List RouteEntry) (d : Desk) (r : Result WireError Question)
      → parse_question u packet ≡ r
      → Sent P d (with_question u max_size o packet refuses table d r)
  with_question-Sent refuses table d (ok question) e =
      with_match-Sent refuses question d (match_route u question.name table) e
  with_question-Sent refuses table d (err x) e = inl refl
  with_question-Sent refuses table d panic e = inl refl
  with_question-Sent refuses table d no_fuel e = inl refl

  -- Whatever a backend, the bridge or the network does, a query over TCP is answered at most once, and
  -- only by a refusal or a failure made from the query itself, by a verification reply or the bridge's
  -- reply within the size limit, or by a backend's reply with the identifier, the name, the type and the
  -- class of the query.
  pub handle_tcp_query-Sent :
      (refuses : Bool) (table : List RouteEntry) (d : Desk)
      → Sent (Answer u max_size o packet) d (handle_tcp_query u max_size o packet refuses table d)
  unfolding handle_tcp_query
  handle_tcp_query-Sent refuses table d =
      with_question-Sent refuses table d (parse_question u packet) refl
