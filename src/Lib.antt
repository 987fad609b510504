-- ===== src/Lib.antt =====
-- CottenRouter is a DNS router: it reads a query over UDP or TCP, limits what each client and all of
-- them may send, picks a backend by the longest domain suffix of the name asked for, forwards the query
-- under an identifier of its own, and gives the reply back to the client that asked.
--
-- Which file models which part, with paths from the repository's root:
--   * Dns: internal/dnswire/query.go. Dns.Text has the string operations and NormalizeDomain (on
--     ASCII; anything else goes through the parameter `Unicode`). Dns.Question is the parser of a
--     query's or a reply's first question, with its results in the type Result: a value, an error, a
--     panic, or a loop out of fuel. Its loop has one round more than the packet has bytes, and that is
--     enough for every packet. Dns.Question.Spec is the format, told independently of the parser.
--     Dns.Response is ErrorResponse and RefusedResponse.
--   * Config: internal/config. An int is its 64 bits in two's complement, and products wrap.
--     Config.Limits, Config.Types are its types, Config.Defaults the defaults and the validation of
--     Limits, Config.Listeners validateTLSListeners, Config.Loops validateNoSelfRouting and
--     Config.Validate the rest of Validate; Config.Slipgate is internal/config/slipgate.go, and
--     Config.Load is Load. A number is written with 20 digits at most, which 64 bits do not exceed.
--     The address of a socket has its IP, port and zone. What the packages net, os, crypto, encoding and path/filepath answer is in the parameters
--     `Platform` and `Decoding`. Validate changes a configuration through a pointer; here it gives the
--     changed one, and nothing where it gives an error.
--   * Guard: internal/guard/limiter.go. Guard.Bucket is the token bucket, Guard.Address what the
--     package takes from net/netip, Guard.Class the traffic classes, Guard.Limiter the state and
--     sourceFor, Guard.Admission the Allow methods, Guard.Connections the Acquire and Release methods
--     and Prune. Guard.Invariant to Guard.Eviction are the proofs.
--   * Telemetry: internal/telemetry/telemetry.go, without Snapshot.
--   * Router.Choice: the sorting by suffix and the first match, which the two route tables share.
--     Router.Table: internal/router/table.go. Router.Tls: the route table, the choice of a backend and
--     the classes of internal/router/tlsrouter.go.
--   * Router.Greeting: readTLSClientHello of internal/router/tlsrouter.go. Each round keeps a byte or
--     more, so that the loop has one round more than it may keep bytes, and that is enough.
--   * Router.Pools: the bounded pools and the registered connections of internal/router/server.go.
--     Router.Pools.Leases has the steps that ServeTCP, ServeTLS, handleTLSClient and Close take on
--     them; an acquisition is one step there, and the rest of the router may use the limiter between.
--   * Router.TcpQuery: handleTCPQueryContext and writeTCPMessage; what the backend, the bridge to UDP
--     and the client's connection do is in the record `Outside`.
--   * Router.Backend: the type backendConn of internal/router/server.go with reserve, take,
--     closeBackend, expirePending, what rotateBackend does to the old socket, and the deferred deletion
--     of exchangeTCPViaUDP in internal/router/tcp_udp.go. Router.Backend.Ledger runs them in any order,
--     and Router.Backend.Sessions adds what handleQuery, exchangeTCPViaUDP, readBackend, expirePending
--     and closeBackend report of them to the telemetry.
--     Opening a session and the reserve that follows are one step there.
--   * Router.Sockets: the table of the backend sockets in internal/router/server.go: getBackend,
--     rotateBackend, dropBackend, and the parts of closeBackend, expirePending and Close on it.
--     Router.Sockets.Served has the steps of the goroutines that share it, one for each hold of a
--     mutex; a backend that a goroutine is yet to close, between two of its steps, is noted in `leaving`.
--   * Router.Frame: readTCPMessage, writeFramedDNS and writeAll of internal/router/server.go. A reader
--     is the bytes that it has yet to give, a writer the list of what its calls do.
--   * Router.Verify: internal/router/verify.go; HMAC, base32 and random bytes are the parameters
--     `Crypto`. The loop of skipDNSName has one round more than the packet has bytes, which is enough.
--   * Router.Hello: parseServerName and parseServerNameExtension of internal/router/tlsrouter.go; each
--     loop has one round more than its bytes, which is enough.
--   * Prelude: the names and lemmas that all share. Tests: the theorems at concrete inputs.
--
-- How the model stands to the code: a string or a slice of bytes is a list of numbers. A method that
-- holds a mutex is one function on the state, and an interleaving of goroutines is a sequence of such
-- calls. A time is a number of nanoseconds, each call is given the time that it has read, and these
-- times may come in any order. A Go map is an association list, whose order nothing depends on but the
-- choice among equals. The token bucket counts in 10^-9 of a token, so that the arithmetic is exact; the
-- rounding of float64 is not modelled. sort.Slice keeps the order of equal lengths here. The
-- limiter's limits are natural numbers, as they are after validation. The counters of the telemetry wrap at 2^64.
--
-- Not modelled: the sockets, goroutines and timers of internal/router, and the handlers that run on
-- them but for handleTCPQueryContext (Serve, ServeTCP, ServeTLS, handleQuery, readBackend,
-- exchangeTCPViaUDP, handleTCPConnection and handleTLSClient appear as the steps that they take on the
-- parts above); its relay of TLS streams and its admin server. internal/installer, internal/catalog,
-- internal/tui and cmd/cottenrouter are files, processes, HTTP and a terminal.
pub mod Prelude
pub mod Dns
pub mod Config
pub mod Guard
pub mod Telemetry
pub mod Router
pub mod Tests
