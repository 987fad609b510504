-- ===== src/Guard/Address.antt =====
-- What internal/guard takes from the package net/netip: addresses, prefixes and their comparison.
use cotten_router.Prelude.{
  ℕ, ◌-◌, ◌/◌, ◌%◌, ◌^◌, ◌≡◌, ◌↔◌, Bool, true, false, ◌&&◌, [], arith, ◌==◌, if◌then◌else◌, Eq,
  Bytes, bytes_eq, bytes_eq_iff,
}

-- netip.Addr: no address, an IPv4 address, or an IPv6 address with its zone.
pub data Addr : Type 0 where
  invalid : Addr
  v4 : ℕ → Addr
  v6 : ℕ → Bytes → Addr

abbrev pub is_valid : Addr → Bool
is_valid invalid = false
is_valid _ = true

-- An IPv4-mapped IPv6 address, ::ffff:0:0/96, becomes an IPv4 address, and loses its zone.
unfoldable pub unmap : Addr → Addr
unmap invalid = invalid
unmap (v4 n) = v4 n
unmap (v6 n zone) = if n / 2 ^ 32 == 0xffff then v4 (n % 2 ^ 32) else v6 n zone

abbrev pub addr_eq : Addr → Addr → Bool
addr_eq invalid invalid = true
addr_eq (v4 m) (v4 n) = m == n
addr_eq (v6 m y) (v6 n z) = m == n && bytes_eq y z
addr_eq _ _ = false

pub addr_eq_iff : (a b : Addr) → (addr_eq a b ≡ true) ↔ (a ≡ b)
addr_eq_iff (v6 m y) (v6 n z) = ground (arith, bytes_eq_iff y z)
addr_eq_iff _ _ = ground arith

instance abbrev pub Addr_eq : Eq Addr
Addr_eq = record { beq = addr_eq; beq_iff = addr_eq_iff }

-- netip.Prefix
pub record Prefix : Type 0 where
  pub addr : Addr
  pub bits : ℕ

-- Prefix.Contains: the families agree, the address has no zone, and the leading bits are the same.
unfoldable pub contains : Prefix → Addr → Bool
contains p a = same_network p.addr a
  where
    same_network : Addr → Addr → Bool
    same_network (v4 m) (v4 n) = m / 2 ^ (32 - p.bits) == n / 2 ^ (32 - p.bits)
    same_network (v6 m y) (v6 n []) = m / 2 ^ (128 - p.bits) == n / 2 ^ (128 - p.bits)
    same_network _ _ = false
