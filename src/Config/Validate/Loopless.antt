-- ===== src/Config/Validate/Loopless.antt =====
-- Which backends of a configuration that Validate accepts can be the router's own sockets.
use cotten_router.Prelude.{
  ℕ, ◌≡◌, ◌⊎◌, true, false, Option, none, some, List, [], if◌then◌else◌, Bytes, codes, All, In,
  Bytes_eq, nat_eq,
}
use cotten_router.Config.Types.{Route, TlsRoute, TlsListener, Settings}
use cotten_router.Config.Platform.{Ip, Platform, SockAddr, is_empty}
use cotten_router.Config.Loops.{
  is_own_host, is_own_address, own_socket, trim_brackets, points_back, is_own_address, is_own_host,
}

-- The IP that net.ParseIP reads in the text of an address.
abbrev pub read_ip : SockAddr → Option Ip
read_ip a = if is_empty a.zone then a.ip else none

-- What the packages net and strconv document: the text of an address splits in a host and a port; the
-- port reads as its number, and the host as its IP, but as none where the text holds a zone; and a text
-- without a port does not split.
pub record Readable (pf : Platform) : Type 0 where
  pub split :
      (a : SockAddr)
      → (host port : Bytes) × (pf.split_host_port (pf.text a) ≡ some (host, port))
        × (pf.to_number port ≡ some a.port)
        × (pf.parse_ip (trim_brackets host) ≡ read_ip a)
  pub no_port : (pf.split_host_port [] ≡ none) × (pf.split_host_port (codes "disabled") ≡ none)

-- The listener takes what is sent to the address on this machine; an address without a host is one of
-- this machine.
pub record IsItself (listener backend : SockAddr) : Type 0 where
  pub port : listener.port ≡ backend.port
  pub answers : own_socket listener.ip ≡ true
  pub reached : own_socket backend.ip ≡ true

-- An address whose text does not show the IP: one without a host, or with a zone.
abbrev pub HidesIp : SockAddr → Type 0
HidesIp a = (a.ip ≡ none) ⊎ (is_empty a.zone ≡ false)

abbrev pub Passed : Platform → List ℕ → TlsListener → Type 0
Passed pf tcp l =
    (points_back pf tcp l.default_backend ≡ false)
    × All (λ (r : TlsRoute). points_back pf tcp r.backend ≡ false) l.routes

-- The addresses that the router connects to over TCP.
pub data TcpBackend (c : Settings) : Bytes → Type 0 where
  of_route : (r : Route) → In r c.routes → TcpBackend c r.tcp_backend
  of_default : (l : TlsListener) → In l c.tls_listeners → TcpBackend c l.default_backend
  of_server_name :
      (l : TlsListener) (r : TlsRoute)
      → In l c.tls_listeners
      → In r l.routes
      → TcpBackend c r.backend
