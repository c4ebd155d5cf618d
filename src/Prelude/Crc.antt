-- ===== src/Prelude/Crc.antt =====
-- `crc32.ChecksumIEEE` of Go's library: the reflected polynomial, bit by bit.
use Prim.Native.Nat.{ℕ, ◌/◌, ◌%◌, ◌^◌, ◌<◌, bit_xor}
use native.Mathlib.Omega.{arith}
use mathlib.Core.List.{[], ◌∷◌}
use vole.Prelude.Tests.{◌==◌, if◌then◌else◌}
use vole.Prelude.Text.{Text}

crc_bit : ℕ → ℕ
crc_bit c = if c % 2 == 1 then bit_xor (c / 2) 0xedb88320 else c / 2

-- the entry of the table for a byte
crc_entry : ℕ → ℕ
unfolding crc_bit
crc_entry i = crc_bit (crc_bit (crc_bit (crc_bit (crc_bit (crc_bit (crc_bit (crc_bit i)))))))

crc_loop : ℕ → Text → ℕ
crc_loop c [] = c
crc_loop c (b ∷ s) = crc_loop (bit_xor (crc_entry (bit_xor (c % 256) b)) (c / 256)) s

unfoldable pub checksum_ieee : Text → ℕ
unfolding crc_loop crc_entry
checksum_ieee s = bit_xor (crc_loop 0xffffffff s) 0xffffffff % 2 ^ 32

pub checksum_ieee-lt : (s : Text) → checksum_ieee s < 16 ^ 8
unfolding checksum_ieee
checksum_ieee-lt s = omega arith
