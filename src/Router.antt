-- ===== src/Router.antt =====
-- internal/router: choosing a route, the pools and connections, the backends behind the routes, and replies.
pub mod Choice
pub mod Table
pub mod Backend
pub mod Frame
pub mod Verify
pub mod Hello
pub mod Greeting
pub mod Tls
pub mod Pools
pub mod TcpQuery
pub mod Sockets
