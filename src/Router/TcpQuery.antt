-- ===== src/Router/TcpQuery.antt =====
-- handleTCPQueryContext and writeTCPMessage of internal/router/server.go. What happens outside a call
-- (the backend, the bridge to UDP, the client's connection) is given to it in a record.
pub mod Answered
use cotten_router.Prelude.{
  ℕ, zero, suc, ◌+◌, ◌-◌, ◌*◌, ◌/◌, ◌%◌, ◌^◌, ◌≤◌, ◌<◌, ◌≡◌, refl, sym, ap, subst, ◌∙◌, ◌≢◌, ◌↔◌,
  ◌⊎◌, inl, inr, Bool, true, false, not, ◌&&◌, ◌||◌, Option, none, some, List, [], ◌∷◌, ◌++◌, map,
  append_assoc, append-nil, arith, ltb, leb, ltb→lt, lt→ltb, leb→le, le→leb, ==_iff, ◌==◌,
  if◌then◌else◌, Bool-cases, Option-cases, Eq, Bytes, codes, bytes_eq, bytes_eq_iff, bytes_eq_refl,
  length, get_elem?, set, take, drop, all, All, length-append, length-take, length-drop, length-set,
  take-append-drop, take-length-append, drop-length-append, drop-drop, Result, ok, err, panic,
  no_fuel, ◌>>=◌, ◌>>◌, reject, or_err, >>=-ok, reject-ok, ok-inj, or_err-ok, byte_at, slice,
  u16_at, byte_at-drop, u16_at-drop, slice-drop, bit, high_byte, low_byte, put_u16, clear_bit,
  set_bit, clear_low, get_or, Assoc, lookup, insert, erase, lookup-insert, lookup-erase,
  length-erase-le, length-erase-lt, length-insert_new, length-insert_old, In, In-append_left,
  In-append_right, All-In, drop-get_or, get_or-length-append, lookup-insert_self, length-insert-le,
  length-erase-lt_of_In, Distinct, insert-Distinct, erase-Distinct, In-lookup, lookup-In, beq-ne,
  lookup-insert_ne, lookup-erase_ne, lookup-erase_self, Bytes_eq, byte_at-ok, u16_at-ok, slice-ok,
  if_cases, if-map, if-congr, nat_eq, count, count-append, erase_absent, count-erase,
  count-insert_new, insert-All, erase-All, lookup-All, All-imp, lookup_bound, AllValues,
  lookup-AllValues, insert-AllValues, erase-AllValues,
}
use cotten_router.Dns.Text.{Unicode}
use cotten_router.Dns.Question.{WireError, Question, parse_question, parse_reply_question}
use cotten_router.Dns.Response.{error_response, refused_response}
use cotten_router.Guard.Limiter.{Limiter}
use cotten_router.Guard.Admission.{allow_response}
use cotten_router.Telemetry.{Registry, CounterKey, query_seen, bytes_sent, error_seen, drop_seen}
use cotten_router.Router.Table.{RouteEntry, match_route}

-- What the call changes: the limiter, the counters, and the messages that have been handed to
-- writeFramedDNS for the client, the latest first.
pub record Desk : Type 0 where
  pub guard : Limiter
  pub stats : Registry
  pub sent : List Bytes

-- The exchange with a TCP backend: DialTimeout, writeFramedDNS or readTCPMessage fails, or there is a
-- reply.
pub data Upstream : Type 0 where
  unreachable unwritten unread : Upstream
  replied : Bytes → Upstream

-- `probe` is what verificationResponse gives where it verifies, `bridged` the result of
-- exchangeTCPViaUDP, `cancelled` whether the context is, `written` whether writing to the client
-- succeeds, and `now` the time that the limiter reads.
pub record Outside : Type 0 where
  pub probe : Option Bytes
  pub bridged : Option Bytes
  pub upstream : Upstream
  pub cancelled : Bool
  pub written : Bool
  pub now : ℕ

unfoldable pub write_tcp_message : Outside → Desk → Bytes → Desk × Bool
write_tcp_message o d packet =
    let (g, allowed) = allow_response d.guard (length packet + 2) o.now in
    if length packet == 0 || ltb 65535 (length packet)
    then (d, false)
    else if not allowed
    then (record d { guard = g; stats = drop_seen d.stats true }, false)
    else (record d { guard = g; sent = packet ∷ d.sent }, o.written)

abbrev pub tcp_key : RouteEntry → CounterKey
tcp_key r = (codes "dns/tcp", r.name)

-- `s.stats.Error("dns/tcp", route.name)`
abbrev pub failed : Desk → RouteEntry → Desk
failed d r = record d { stats = error_seen d.stats (tcp_key r) }

-- `if s.writeTCPMessage(…) { s.stats.Out(…) }`, and the failure where there is an `else`.
abbrev pub count_sent : RouteEntry → Bytes → (Desk → Desk) → Desk × Bool → Desk
count_sent r packet otherwise (d, true) = record d {
  stats = bytes_sent d.stats (tcp_key r) (length packet + 2);
}
count_sent r packet otherwise (d, false) = otherwise d

unfoldable pub write_counted : Outside → RouteEntry → Desk → Bytes → Desk
write_counted o r d packet = count_sent r packet (λ d'. d') (write_tcp_message o d packet)

-- binary.BigEndian.Uint16(packet[:2]); both packets have been parsed where it is read.
abbrev pub id_of : Bytes → ℕ
id_of packet = get_or packet 0 0 * 256 + get_or packet 1 0

-- The reply has the identifier and the question of the query. No parse panics.
abbrev pub is_echo : Bytes → Question → Bytes → Result WireError Question → Bool
is_echo packet question response (ok reply) =
    id_of response == id_of packet
    && bytes_eq reply.name question.name
    && reply.type == question.type
    && reply.class == question.class
is_echo packet question response _ = false

-- `if verified { … } else { … exchangeTCPViaUDP … }`
abbrev pub or_bridged : Option Bytes → Option Bytes → Option Bytes
or_bridged none bridged = bridged
or_bridged (some response) bridged = some response

module _ (u : Unicode) (max_size : ℕ) (o : Outside) (packet : Bytes) where
  abbrev pub answer_failure : RouteEntry → Desk → Desk
  answer_failure r d = write_counted o r d (error_response packet 2)

  abbrev pub give_up : RouteEntry → Desk → Desk
  give_up r d = if o.cancelled then failed d r else answer_failure r (failed d r)

  -- A route whose TCP backend is "udp".
  abbrev pub over_udp : RouteEntry → Desk → Option Bytes → Desk
  over_udp r d none = give_up r d
  over_udp r d (some response) =
      if ltb max_size (length response) then give_up r d else write_counted o r d response

  abbrev pub over_tcp : RouteEntry → Question → Desk → Upstream → Desk
  over_tcp r question d unreachable = answer_failure r d
  over_tcp r question d unwritten = d
  over_tcp r question d unread = failed d r
  over_tcp r question d (replied response) =
      if is_echo packet question response (parse_reply_question u response)
      then count_sent r response (λ d'. failed d' r) (write_tcp_message o d response)
      else answer_failure r (failed d r)

  abbrev pub routed : RouteEntry → Question → Desk → Desk
  routed r question d =
      if bytes_eq r.tcp_backend (codes "udp")
      then over_udp r d (or_bridged o.probe o.bridged)
      else if bytes_eq r.tcp_backend (codes "disabled")
      then answer_failure r d
      else over_tcp r question d o.upstream

  abbrev pub with_match : Bool → Question → Desk → Option RouteEntry → Desk
  with_match refuses question d none =
      if refuses then (write_tcp_message o d (refused_response packet)).0 else d
  with_match refuses question d (some r) =
      routed r question (record d { stats = query_seen d.stats (tcp_key r) (length packet + 2) })

  -- A query that does not parse is passed over; no parse panics.
  abbrev pub with_question : Bool → List RouteEntry → Desk → Result WireError Question → Desk
  with_question refuses table d (ok question) =
      with_match refuses question d (match_route u question.name table)
  with_question refuses table d _ = d

  -- `refuses` is `s.cfg.UnmatchedAction == "refused"`.
  unfoldable pub handle_tcp_query : Bool → List RouteEntry → Desk → Desk
  handle_tcp_query refuses table d = with_question refuses table d (parse_question u packet)
