-- ===== src/Protocol/ByteOrder/RoundTrip.antt =====
-- shared/protocol/byte_order.h: reads of writes and writes of reads, of 16 and 32 bits.
use espview.Base.{ℕ, ◌+◌, ◌*◌, ◌/◌, ◌%◌, ◌^◌, ◌<◌, ◌≡◌, arith, List, [], ◌∷◌, ◌++◌, bit_and}
use espview.Base.Bits.{bit_and-mask, bit_or-shift}
use espview.Base.Bytes.{IsByte, IsBytes}
use espview.Protocol.ByteOrder.{read_u16_le, write_u16_le, read_u32_le, write_u32_le}

pub low_byte : (v : ℕ) → bit_and v 0xFF ≡ v % 2 ^ 8
low_byte v = bit_and-mask 8 v

pub write_u16_le-IsBytes : (v : ℕ) → IsBytes (write_u16_le v)
unfolding write_u16_le
write_u16_le-IsBytes v = omega (arith, low_byte v, low_byte (v / 2 ^ 8))

pub write_u32_le-IsBytes : (v : ℕ) → IsBytes (write_u32_le v)
unfolding write_u32_le
write_u32_le-IsBytes v =
    omega (arith, low_byte v, low_byte (v / 2 ^ 8), low_byte (v / 2 ^ 16), low_byte (v / 2 ^ 24))

-- The value of two bytes, and of four.
pub read_u16_le_sum :
    (a b : ℕ) (rest : List ℕ) → IsByte a → read_u16_le (a ∷ b ∷ rest) ≡ a + b * 2 ^ 8
unfolding read_u16_le
read_u16_le_sum a b rest h = bit_or-shift 8 a b h

pub read_u32_le_sum :
    (a b c d : ℕ) (rest : List ℕ)
    → IsByte a
    → IsByte b
    → IsByte c
    → read_u32_le (a ∷ b ∷ c ∷ d ∷ rest) ≡ a + b * 2 ^ 8 + c * 2 ^ 16 + d * 2 ^ 24
unfolding read_u32_le
read_u32_le_sum a b c d rest ha hb hc =
    rw (bit_or-shift 8 a b ha, bit_or-shift 16 (a + b * 2 ^ 8) c (omega arith))
      (bit_or-shift 24 (a + b * 2 ^ 8 + c * 2 ^ 16) d (omega arith))

-- Reading what was written gives the value back, whatever follows.
pub read_u16_le-write_u16_le :
    (v : ℕ) (rest : List ℕ) → v < 2 ^ 16 → read_u16_le (write_u16_le v ++ rest) ≡ v
unfolding write_u16_le
read_u16_le-write_u16_le v rest h =
    rw
      (
        low_byte v,
        low_byte (v / 2 ^ 8),
        read_u16_le_sum (v % 2 ^ 8) (v / 2 ^ 8 % 2 ^ 8) rest (omega arith),
      )
      (omega arith)

pub read_u32_le-write_u32_le :
    (v : ℕ) (rest : List ℕ) → v < 2 ^ 32 → read_u32_le (write_u32_le v ++ rest) ≡ v
unfolding write_u32_le
read_u32_le-write_u32_le v rest h =
    let b0 = low_byte v in
    let b1 = low_byte (v / 2 ^ 8) in
    let b2 = low_byte (v / 2 ^ 16) in
    rw
      (read_u32_le_sum (bit_and v 0xFF) (bit_and (v / 2 ^ 8) 0xFF) (bit_and (v / 2 ^ 16) 0xFF)
        (bit_and (v / 2 ^ 24) 0xFF) rest (omega arith) (omega arith) (omega arith))
      (omega (arith, low_byte (v / 2 ^ 24)))

pub write_u16_le-read_u16_le :
    (a b : ℕ) (rest : List ℕ)
    → IsByte a
    → IsByte b
    → write_u16_le (read_u16_le (a ∷ b ∷ rest)) ≡ a ∷ b ∷ []
unfolding write_u16_le
write_u16_le-read_u16_le a b rest ha hb =
    rw (read_u16_le_sum a b rest ha, low_byte (a + b * 2 ^ 8), low_byte ((a + b * 2 ^ 8) / 2 ^ 8))
      (ground arith)

pub write_u32_le-read_u32_le :
    (a b c d : ℕ) (rest : List ℕ)
    → IsBytes (a ∷ b ∷ c ∷ d ∷ [])
    → write_u32_le (read_u32_le (a ∷ b ∷ c ∷ d ∷ rest)) ≡ a ∷ b ∷ c ∷ d ∷ []
unfolding write_u32_le
write_u32_le-read_u32_le a b c d rest h =
    rw (read_u32_le_sum a b c d rest h.0 h.1.0 h.1.1.0) (
      ground
        (arith, low_byte v, low_byte (v / 2 ^ 8), low_byte (v / 2 ^ 16), low_byte (v / 2 ^ 24)))
  where
    v : ℕ
    v = a + b * 2 ^ 8 + c * 2 ^ 16 + d * 2 ^ 24
