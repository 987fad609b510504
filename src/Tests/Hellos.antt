-- ===== src/Tests/Hellos.antt =====
-- A ClientHello with one extension, the server name "A".
use cotten_router.Prelude.{
  ℕ, zero, suc, ◌≡◌, refl, [], ◌∷◌, ◌++◌, Bytes, codes, ok, byte_at, slice, u16_at, nat_eq,
}
use cotten_router.Tests.Wire.{ascii}
use cotten_router.Dns.Text.{to_lower}
use cotten_router.Router.Hello.{
  scan_names, parse_server_name_extension, scan_extensions, parse_extensions, parse_ciphers,
  parse_server_name,
}
use cotten_router.Router.Hello.Total.{Answers, parse_server_name_total}

abbrev zeros : ℕ → Bytes
zeros zero = []
zeros (suc n) = 0 ∷ zeros n

-- Version and random, an empty session, no ciphers, no compression, and the extensions.
abbrev pub client_hello : Bytes
client_hello = zeros 34 ++ (0 ∷ 0 ∷ 0 ∷ 0 ∷ 0 ∷ 10 ∷ 0 ∷ 0 ∷ 0 ∷ 6 ∷ 0 ∷ 4 ∷ 0 ∷ 0 ∷ 1 ∷ 65 ∷ [])

name_found : parse_server_name ascii client_hello ≡ ok (codes "a")
unfolding parse_server_name parse_ciphers parse_extensions scan_extensions
    parse_server_name_extension scan_names u16_at byte_at slice to_lower
name_found = refl

parse_server_name_total_example : Answers (parse_server_name ascii client_hello)
parse_server_name_total_example = parse_server_name_total ascii client_hello
