-- ===== src/Nvdata/Crc.antt =====
-- `crc8` of nvdata_tool/nvdata_tool.py. A Python integer has no width: the register is a plain
-- number.
pub mod Laws
use Prim.Native.Nat.{bit_and, bit_xor}
use os_lockdown.Base.{ℕ, zero, suc, ◌*◌, ◌/◌, List, [], ◌∷◌, ◌==◌, if◌then◌else◌}

-- The body of the inner loop: `if crc & 0x8000: crc ^= 0x8380`, then `crc <<= 1`.
crc_bit : ℕ → ℕ
crc_bit crc = (if bit_and crc 0x8000 == 0 then crc else bit_xor crc 0x8380) * 2

-- `for _ in range(n)`
crc_bits : ℕ → ℕ → ℕ
crc_bits zero crc = crc
crc_bits (suc n) crc = crc_bits n (crc_bit crc)

-- `for b in buf: crc ^= (b << 8)` and the eight rounds.
crc_loop : ℕ → List ℕ → ℕ
crc_loop crc [] = crc
crc_loop crc (b ∷ buf) = crc_loop (crc_bits 8 (bit_xor crc (b * 256))) buf

unfoldable pub crc8 : List ℕ → ℕ
unfolding crc_loop crc_bits crc_bit
crc8 buf = crc_loop 0 buf / 256
