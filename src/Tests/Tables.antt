-- ===== src/Tests/Tables.antt =====
-- The table of backend sockets, with the socket of one address.
use cotten_router.Prelude.{
  ◌≡◌, refl, inl, true, false, some, Bytes, codes, bytes_eq, lookup, insert, erase, In, Bytes_eq,
  nat_eq,
}
use cotten_router.Router.Backend.{BackendConn, new_backend, close_backend}
use cotten_router.Router.Sockets.{
  Sockets, new_sockets, get_backend, new_backend_locked, close_sockets, close_listed, drop_locked,
  forget, shut,
}
use cotten_router.Router.Sockets.Open.{Usable}
use cotten_router.Router.Sockets.Served.{
  Reachable, started, stepped, getting, dropping, shutting, Reachable-Usable, Reachable-closed,
}

abbrev address : Bytes
address = codes "127.0.0.1:1"

abbrev one : Sockets
one = (get_backend new_sockets address 0 true).0

one_reached : Reachable one
one_reached = stepped new_sockets one started (getting new_sockets address 0 true)

-- The socket fails, its address gets another one after the cool-down, and only then it is closed.
abbrev dropped : Sockets
dropped = drop_locked one 0 (new_backend address) 10

abbrev replaced : Sockets
replaced = (get_backend dropped address 300000000 true).0

abbrev final : Sockets
final = shut replaced 0 (new_backend address)

one_known : lookup 0 one.conns ≡ some (new_backend address)
unfolding get_backend new_backend_locked lookup insert
one_known = refl

replaced_known : lookup 0 replaced.conns ≡ some (new_backend address)
unfolding get_backend new_backend_locked lookup insert erase drop_locked forget bytes_eq
replaced_known = refl

zero_leaving : In 0 replaced.leaving
unfolding get_backend new_backend_locked lookup insert erase drop_locked forget bytes_eq
zero_leaving = inl refl

final_reached : Reachable final
final_reached =
    stepped replaced final
      (stepped dropped replaced
        (stepped one dropped one_reached (dropping one 0 (new_backend address) 10 one_known))
        (getting dropped address 300000000 true))
      (shutting replaced 0 (new_backend address) replaced_known zero_leaving)

again : get_backend final address 300000005 true ≡ (final, some 1)
unfolding get_backend new_backend_locked lookup insert erase bytes_eq drop_locked forget shut
    close_backend
again = refl

Reachable-Usable_example : (c : BackendConn) × (lookup 1 final.conns ≡ some c) × Usable address c
Reachable-Usable_example = Reachable-Usable final final address 300000005 1 true final_reached again

one_going : one.is_done ≡ false
unfolding get_backend new_backend_locked lookup
one_going = refl

one_closed : lookup 0 (close_sockets one).conns ≡ some (close_backend (new_backend address)).0
unfolding get_backend new_backend_locked lookup insert close_sockets close_listed
one_closed = refl

Reachable-closed_example : (close_backend (new_backend address)).0.is_done ≡ true
Reachable-closed_example =
    Reachable-closed one 0 (close_backend (new_backend address)).0 one_reached one_going one_closed
