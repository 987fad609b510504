-- ===== src/Tests/Greetings.antt =====
-- TLS streams: a ClientHello in one record, a stream that is not TLS, and one that is not after its
-- first record.
use cotten_router.Prelude.{
  ◌≡◌, refl, List, [], ◌∷◌, ◌++◌, Bytes, codes, ok, err, byte_at, slice, u16_at, Bytes_eq, nat_eq,
}
use cotten_router.Dns.Text.{to_lower}
use cotten_router.Config.Types.{TlsRoute}
use cotten_router.Guard.Class.{protocol_class, class_name}
use cotten_router.Router.Frame.{read_full}
use cotten_router.Router.Hello.{
  parse_server_name, parse_ciphers, parse_extensions, scan_extensions, parse_server_name_extension,
  scan_names,
}
use cotten_router.Router.Greeting.{not_tls, read_tls_client_hello, read_records, with_handshake}
use cotten_router.Router.Greeting.Whole.{Faithful, read_tls_client_hello-Faithful}
use cotten_router.Router.Tls.{classify_tls_protocol, tls_capacity_class}
use cotten_router.Router.Tls.Chosen.{tls_capacity_class-class_name}
use cotten_router.Tests.Wire.{ascii}
use cotten_router.Tests.Hellos.{client_hello}

-- The record, the handshake, and a byte that follows them.
abbrev stream : Bytes
stream = 22 ∷ 3 ∷ 1 ∷ 0 ∷ 54 ∷ 1 ∷ 0 ∷ 0 ∷ 50 ∷ client_hello ++ (23 ∷ [])

stream_read : read_tls_client_hello ascii 512 stream ≡ record {
  initial = 22 ∷ 3 ∷ 1 ∷ 0 ∷ 54 ∷ 1 ∷ 0 ∷ 0 ∷ 50 ∷ client_hello;
  server_name = ok (codes "a");
  rest = 23 ∷ [];
}
unfolding read_tls_client_hello read_records with_handshake read_full parse_server_name byte_at
    parse_ciphers u16_at parse_extensions scan_extensions slice parse_server_name_extension
    scan_names to_lower
stream_read = refl

-- What the first record held is not among the bytes that are passed on.
first_record_lost :
    read_tls_client_hello ascii 512 (22 ∷ 3 ∷ 1 ∷ 0 ∷ 1 ∷ 1 ∷ 23 ∷ 3 ∷ 3 ∷ 0 ∷ 1 ∷ 9 ∷ [])
    ≡ record { initial = 23 ∷ 3 ∷ 3 ∷ 0 ∷ 1 ∷ []; server_name = err not_tls; rest = 9 ∷ [] }
unfolding read_tls_client_hello read_records with_handshake read_full
first_record_lost = refl

read_tls_client_hello-Faithful_example :
    Faithful 512 stream (read_tls_client_hello ascii 512 stream)
read_tls_client_hello-Faithful_example = read_tls_client_hello-Faithful ascii 512 stream

abbrev routes : List TlsRoute
routes =
    record { name = codes "wide"; server_names = codes "b.c" ∷ []; backend = codes "127.0.0.1:1" }
    ∷ record {
      name = codes "deep";
      server_names = codes "a.b.c" ∷ [];
      backend = codes "127.0.0.1:2";
    }
    ∷ []

tls_capacity_class-class_name_example :
    tls_capacity_class (classify_tls_protocol ascii (codes "tls") (codes "My DoH"))
    ≡ class_name (protocol_class (classify_tls_protocol ascii (codes "tls") (codes "My DoH")))
tls_capacity_class-class_name_example =
    tls_capacity_class-class_name ascii (codes "tls") (codes "My DoH")
