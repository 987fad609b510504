-- ===== src/Dns.antt =====
-- internal/dnswire: the DNS wire format.
pub mod Text
pub mod Question
pub mod Response
