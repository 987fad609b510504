-- ===== src/Tests/Answers.antt =====
-- A query over TCP whose backend cannot be reached.
use cotten_router.Prelude.{true, false, none, List, [], ◌∷◌, codes, Bytes_eq, nat_eq}
use cotten_router.Guard.Limiter.{new}
use cotten_router.Telemetry.{new_registry}
use cotten_router.Router.Table.{RouteEntry}
use cotten_router.Router.TcpQuery.{Desk, Outside, unreachable, handle_tcp_query}
use cotten_router.Router.TcpQuery.Answered.{Sent, Answer, handle_tcp_query-Sent}
use cotten_router.Tests.Sources.{small, no_prefix}
use cotten_router.Tests.Wire.{ascii, query}

abbrev desk : Desk
desk = record { guard = new no_prefix small 0; stats = new_registry; sent = [] }

abbrev outside : Outside
outside = record {
  probe = none;
  bridged = none;
  upstream = unreachable;
  cancelled = false;
  written = true;
  now = 0;
}

abbrev table : List RouteEntry
table =
    record {
      domain = codes "b";
      backend = codes "127.0.0.1:1";
      tcp_backend = codes "127.0.0.1:2";
      name = codes "only";
      verify_key = [];
      verify_mtu = 0;
    }
    ∷ []

handle_tcp_query-Sent_example :
    Sent
      (Answer ascii 512 outside query)
      desk
      (handle_tcp_query ascii 512 outside query true table desk)
handle_tcp_query-Sent_example = handle_tcp_query-Sent ascii 512 outside query true table desk
