-- ===== src/Crc.antt =====
-- librange/util/crc32.cpp
pub mod Table
use Prim.Native.Nat.{bit_and, bit_xor}
use rangexx.Base.{ℕ, ◌/◌, ◌^◌, List, [], ◌∷◌, Str, get_or}
use Table.{crc_table}

-- One round of the loop. `*it` is a `char`, which `& 0xFF` makes a byte again; the sum of the two
-- fields is at most 32 bits wide.
unfoldable pub crc_step : ℕ → ℕ → ℕ
unfolding crc_table
crc_step crc byte =
    bit_xor (bit_and (crc / 2 ^ 8) 0x00FFFFFF)
      (get_or crc_table (bit_and (bit_xor crc byte) 0xFF) 0)

unfoldable pub crc_loop : ℕ → Str → ℕ
unfolding crc_step
crc_loop crc [] = crc
crc_loop crc (byte ∷ block) = crc_loop (crc_step crc byte) block

unfoldable pub crc32 : Str → ℕ
unfolding crc_loop
crc32 [] = 0
crc32 (byte ∷ block) = bit_xor (crc_loop 0 (byte ∷ block)) 0xFFFFFFFF
