-- ===== src/Protocol/ByteOrder.antt =====
-- shared/protocol/byte_order.h: little-endian reads and writes. A pointer is the list of the bytes
-- from it on; a read beyond the end, which the callers exclude, is 0 here.
pub mod RoundTrip
use espview.Base.{ℕ, zero, suc, ◌+◌, ◌*◌, List, [], ◌∷◌, bit_and, bit_or, get_or}
use espview.Base.Word.{◌<<◌, ◌>>◌}

unfoldable pub read_u16_le : List ℕ → ℕ
read_u16_le p = bit_or (get_or p 0 0) (get_or p 1 0 << 8)

unfoldable pub write_u16_le : ℕ → List ℕ
write_u16_le v = bit_and v 0xFF ∷ bit_and (v >> 8) 0xFF ∷ []

unfoldable pub read_u32_le : List ℕ → ℕ
read_u32_le p =
    bit_or (bit_or (bit_or (get_or p 0 0) (get_or p 1 0 << 8)) (get_or p 2 0 << 16))
      (get_or p 3 0 << 24)

unfoldable pub write_u32_le : ℕ → List ℕ
write_u32_le v =
    bit_and v 0xFF ∷ bit_and (v >> 8) 0xFF ∷ bit_and (v >> 16) 0xFF ∷ bit_and (v >> 24) 0xFF ∷ []

-- The loops of the 64-bit forms, at index `i` with `n` turns left.
unfoldable pub read_u64_turns : ℕ → ℕ → List ℕ → ℕ → ℕ
read_u64_turns zero i p v = v
read_u64_turns (suc n) i p v = read_u64_turns n (i + 1) p (bit_or v (get_or p i 0 << 8 * i))

unfoldable pub read_u64_le : List ℕ → ℕ
unfolding read_u64_turns
read_u64_le p = read_u64_turns 8 0 p 0

unfoldable pub write_u64_turns : ℕ → ℕ → ℕ → List ℕ
write_u64_turns zero i v = []
write_u64_turns (suc n) i v = bit_and (v >> 8 * i) 0xFF ∷ write_u64_turns n (i + 1) v

unfoldable pub write_u64_le : ℕ → List ℕ
unfolding write_u64_turns
write_u64_le v = write_u64_turns 8 0 v
