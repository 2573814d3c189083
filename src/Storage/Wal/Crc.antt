-- ===== src/Storage/Wal/Crc.antt =====
-- storage/WriteAheadLog.cpp: the CRC-32 of a record. A uint32_t is a number below 2^32.
use distributed_key_value_st.Base.{
  ℕ, zero, suc, ◌/◌, ◌%◌, ◌^◌, ◌<◌, List, [], ◌∷◌, if◌then◌else◌, ◌==◌, arith,
}
use Prim.Native.Nat.{bit_xor}

-- One turn of the inner loop of BuildCrc32Table.
unfoldable pub shift_bit : ℕ → ℕ
shift_bit crc = if crc % 2 == 1 then bit_xor 3988292384 (crc / 2) else crc / 2

unfoldable pub shift_bits : ℕ → ℕ → ℕ
unfolding shift_bit
shift_bits zero crc = crc
shift_bits (suc j) crc = shift_bits j (shift_bit crc)

-- crc32_table[i]
unfoldable pub table_entry : ℕ → ℕ
unfolding shift_bits
table_entry i = shift_bits 8 i

unfoldable pub crc_from : ℕ → List ℕ → ℕ
unfolding table_entry
crc_from crc [] = crc
crc_from crc (b ∷ bytes) = crc_from (bit_xor (table_entry (bit_xor crc b % 256)) (crc / 256)) bytes

unfoldable pub crc32 : List ℕ → ℕ
unfolding crc_from
crc32 bytes = bit_xor (crc_from 4294967295 bytes) 4294967295 % 2 ^ 32

pub crc32_bound : (bytes : List ℕ) → crc32 bytes < 2 ^ 32
unfolding crc32
crc32_bound bytes = omega arith
