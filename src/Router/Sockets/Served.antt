-- ===== src/Router/Sockets/Served.antt =====
-- The sockets that the router's goroutines are given, whatever they do.
use cotten_router.Prelude.{
  ℕ, ◌≡◌, refl, sym, subst, ◌∙◌, Bool, true, false, some, Bytes, lookup, insert, In, Bytes_eq,
  nat_eq,
}
use cotten_router.Dns.Question.{Question}
use cotten_router.Router.Backend.{PendingQuery, BackendConn, reserve, take_reply, abandon}
use cotten_router.Router.Sockets.{
  Sockets, new_sockets, get_backend, shut, unlist, leave, rotate_backend, drop_locked, tick_locked,
  halt, close_sockets,
}
use cotten_router.Router.Sockets.Open.{Usable, Tidy, new_sockets-Tidy, numbered-lookup}
use cotten_router.Router.Sockets.Steps.{
  reserve-Tidy, take_reply-Tidy, erase-Tidy, shut-Tidy, unlist-Tidy,
}
use cotten_router.Router.Sockets.Calls.{
  Gives, get_backend-Gives, get_backend-Tidy, rotate_backend-Tidy, halt-Tidy, close_listed-closed,
}
use cotten_router.Router.Sockets.Leaving.{
  Leaving, new_sockets-Leaving, conns-Leaving, unlisted-Leaving, leave-Leaving, leave-Tidy,
  get_backend-Leaving, rotate_backend-Leaving, halt-Leaving, drop_locked-Kept, tick_locked-Kept,
}

-- What the router's goroutines do to the table: each step is one hold of the server's mutex or of a
-- socket's, except that rotateBackend takes the socket's within the server's, and that closeOnce closes
-- `done` and empties the pending map.
pub data Step : Sockets → Sockets → Type 0 where
  getting :
      (s : Sockets) (address : Bytes) (now : ℕ) (dialled : Bool)
      → Step s (get_backend s address now dialled).0
  rotating :
      (s : Sockets) (address : Bytes) (id : ℕ) (c : BackendConn) (now later timeout : ℕ)
      (dialled : Bool)
      → lookup id s.conns ≡ some c
      → c.address ≡ address
      → Step s (rotate_backend s address id c now later timeout dialled).0
  -- dropBackend, before it calls closeBackend
  dropping :
      (s : Sockets) (id : ℕ) (c : BackendConn) (now : ℕ)
      → lookup id s.conns ≡ some c
      → Step s (drop_locked s id c now)
  -- readBackend and Close, once the server closes
  failing :
      (s : Sockets) (id : ℕ) (c : BackendConn)
      → lookup id s.conns ≡ some c
      → s.is_done ≡ true
      → Step s (leave s id)
  ticking :
      (s : Sockets) (id : ℕ) (c : BackendConn) (now : ℕ)
      → lookup id s.conns ≡ some c
      → Step s (tick_locked s id c now)
  -- closeBackend: first the backend itself, later the list of them
  shutting :
      (s : Sockets) (id : ℕ) (c : BackendConn)
      → lookup id s.conns ≡ some c
      → In id s.leaving
      → Step s (shut s id c)
  unlisting :
      (s : Sockets) (id : ℕ) (c : BackendConn)
      → lookup id s.conns ≡ some c
      → c.is_done ≡ true
      → Step s (unlist s id)
  reserving :
      (s : Sockets) (id : ℕ) (c : BackendConn) (q : PendingQuery) (limit : ℕ)
      → lookup id s.conns ≡ some c
      → Step s (record s { conns = insert id (reserve c q limit).0 s.conns })
  replying :
      (s : Sockets) (id : ℕ) (c : BackendConn) (n : ℕ) (q : Question)
      → lookup id s.conns ≡ some c
      → Step s (record s { conns = insert id (take_reply c n q).0 s.conns })
  -- the end of exchangeTCPViaUDP
  abandoning :
      (s : Sockets) (id : ℕ) (c : BackendConn) (n : ℕ)
      → lookup id s.conns ≡ some c
      → Step s (record s { conns = insert id (abandon c n).0 s.conns })
  -- Close: first `done`, later the table, before it calls closeBackend for each
  ending : (s : Sockets) → Step s (record s { is_done = true })
  halting : (s : Sockets) → Step s (halt s)

pub data Reachable : Sockets → Type 0 where
  started : Reachable new_sockets
  stepped : (s t : Sockets) → Reachable s → Step s t → Reachable t

Step-Kept : (s t : Sockets) → Tidy s → Leaving s → Step s t → Tidy t × Leaving t
unfolding shut unlist abandon
Step-Kept s t v w (getting _ address now dialled) =
    (get_backend-Tidy s address now dialled v, get_backend-Leaving s address now dialled w)
Step-Kept s t v w (rotating _ address id c now later timeout dialled known here) = (
  rotate_backend-Tidy s address id c now later timeout dialled v known here,
  rotate_backend-Leaving s address id c now later timeout dialled w,
)
Step-Kept s t v w (dropping _ id c now known) = drop_locked-Kept s id c v w known now
Step-Kept s t v w (failing _ id c known done) = (
  leave-Tidy s id v,
  leave-Leaving s id w (numbered-lookup s id c v known)
      (λ going. absurd (let bad : true ≡ false = sym done ∙ going in cc)),
)
Step-Kept s t v w (ticking _ id c now known) = tick_locked-Kept s id c v w known now
Step-Kept s t v w (shutting _ id c known i) =
    (shut-Tidy s id c v known (λ d. w.unused d id i), conns-Leaving s _ w)
Step-Kept s t v w (unlisting _ id c known done) =
    (unlist-Tidy s id c v known done, unlisted-Leaving s _ w)
Step-Kept s t v w (reserving _ id c q limit known) =
    (reserve-Tidy s id c v known q limit, conns-Leaving s _ w)
Step-Kept s t v w (replying _ id c n q known) =
    (take_reply-Tidy s id c v known n q, conns-Leaving s _ w)
Step-Kept s t v w (abandoning _ id c n known) = (erase-Tidy s id c v known n, conns-Leaving s _ w)
Step-Kept s t v w (ending _) = (
  record { numbered = v.numbered; backends = λ d. absurd (cc d); listed = λ d. absurd (cc d) },
  record { below = w.below; unused = λ d. absurd (cc d) },
)
Step-Kept s t v w (halting _) = (halt-Tidy s v, halt-Leaving s w)

Reachable-Kept : (s : Sockets) → Reachable s → Tidy s × Leaving s
Reachable-Kept s started = (new_sockets-Tidy, new_sockets-Leaving)
Reachable-Kept t (stepped s _ before step) =
    let (v, w) = Reachable-Kept s before in Step-Kept s t v w step

-- After any steps of the router's goroutines, in any order, the socket that getBackend gives for an address
-- is one to that address that is open and has not been retired.
pub Reachable-Usable :
    (s t : Sockets) (address : Bytes) (now id : ℕ) (dialled : Bool)
    → Reachable s
    → get_backend s address now dialled ≡ (t, some id)
    → (c : BackendConn) × (lookup id t.conns ≡ some c) × Usable address c
Reachable-Usable s t address now id dialled r h =
    let gives = get_backend-Gives s address now dialled (Reachable-Kept s r).0 in
    subst (Gives address) h gives id refl

-- After any steps of the router's goroutines, in any order, and then Close, no backend socket is open, the retired ones included.
pub Reachable-closed :
    (s : Sockets) (id : ℕ) (c : BackendConn)
    → Reachable s
    → s.is_done ≡ false
    → lookup id (close_sockets s).conns ≡ some c
    → c.is_done ≡ true
unfolding close_sockets
Reachable-closed s id c r going h =
    close_listed-closed s.all_backends s.conns id c
      (λ d found open_still. (Reachable-Kept s r).0.listed going id d found open_still) h
