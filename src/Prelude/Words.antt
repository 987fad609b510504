-- ===== src/Prelude/Words.antt =====
-- 16-bit words in network order, and bits of a word by shift and mask.
use Prim.Native.Nat.{ℕ, ◌+◌, ◌-◌, ◌*◌, ◌/◌, ◌%◌, ◌^◌}
use cotten_router.Prelude.Tests.{Bytes}
use cotten_router.Prelude.Lists.{set}

-- (x >> k) & 1
abbrev pub bit : ℕ → ℕ → ℕ
bit x k = x / 2 ^ k % 2

-- The two bytes of uint16(x), high byte first.
abbrev pub high_byte : ℕ → ℕ
high_byte x = x / 256 % 256

abbrev pub low_byte : ℕ → ℕ
low_byte x = x % 256

-- binary.BigEndian.PutUint16(p[i:i+2], x)
abbrev pub put_u16 : Bytes → ℕ → ℕ → Bytes
put_u16 p i x = set (set p i (high_byte x)) (i + 1) (low_byte x)

-- x &^ (1 << k), x | (1 << k), and x &^ (1<<k - 1)
abbrev pub clear_bit : ℕ → ℕ → ℕ
clear_bit x k = x - bit x k * 2 ^ k

abbrev pub set_bit : ℕ → ℕ → ℕ
set_bit x k = x + (1 - bit x k) * 2 ^ k

abbrev pub clear_low : ℕ → ℕ → ℕ
clear_low x k = x - x % 2 ^ k
