-- ===== src/Protocol/Crc32.antt =====
-- shared/protocol/crc32.cpp and crc32.h: the reflected CRC-32 by a table of 256 entries.
pub mod Linear
pub mod Reference
pub mod Detect
use espview.Base.{ℕ, zero, suc, ◌+◌, List, [], ◌∷◌, bit_and, bit_xor, ◌!=◌, if◌then◌else◌, get_or}
use espview.Base.Word.{◌>>◌}

abbrev pub crc32_poly : ℕ
crc32_poly = 0xEDB88320

abbrev pub crc32_init : ℕ
crc32_init = 0xFFFFFFFF

abbrev pub crc32_final_xor : ℕ
crc32_final_xor = 0xFFFFFFFF

-- One turn of the inner loop over `bit`.
unfoldable pub table_round : ℕ → ℕ
table_round c = if bit_and c 1 != 0 then bit_xor crc32_poly (c >> 1) else c >> 1

unfoldable pub table_rounds : ℕ → ℕ → ℕ
table_rounds zero c = c
table_rounds (suc n) c = table_rounds n (table_round c)

-- `t[i]` for `n` values of `i` from the given one on.
unfoldable pub table_from : ℕ → ℕ → List ℕ
table_from zero i = []
table_from (suc n) i = table_rounds 8 i ∷ table_from n (i + 1)

unfoldable pub crc32_table : List ℕ
unfolding table_from table_rounds table_round
crc32_table = table_from 256 0

-- One turn of the loop over the data; the index is below 256.
unfoldable pub crc32_step : ℕ → ℕ → ℕ
unfolding crc32_table
crc32_step crc b = bit_xor (get_or crc32_table (bit_and (bit_xor crc b) 0xFF) 0) (crc >> 8)

unfoldable pub crc32_update : ℕ → List ℕ → ℕ
unfolding crc32_step
crc32_update crc [] = crc
crc32_update crc (b ∷ data_bytes) = crc32_update (crc32_step crc b) data_bytes

unfoldable pub crc32 : List ℕ → ℕ
unfolding crc32_update
crc32 data_bytes = bit_xor (crc32_update crc32_init data_bytes) crc32_final_xor
