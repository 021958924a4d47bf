-- ===== src/Protocol/Crc32/Reference.antt =====
-- shared/protocol/crc32.cpp: the table-driven update against the division by the polynomial, bit by
-- bit.
use espview.Base.{
  ℕ, zero, suc, ◌+◌, ◌*◌, ◌/◌, ◌%◌, ◌^◌, ◌<◌, ◌≡◌, refl, sym, ap, ◌∙◌, arith, List, [], ◌∷◌, ◌++◌,
  All, bit_xor, get_or,
}
use espview.Base.Bits.{bit_and-mask, bit_xor-lt}
use espview.Base.Xor.{bit_xor-shift, bit_xor-byte-shr}
use espview.Protocol.Crc32.{crc32_step, crc32_update, table_from, table_rounds, crc32_table}
use espview.Protocol.Crc32.Linear.{table_rounds-bit_xor, table_rounds-shift, table_rounds-lt}

-- The textbook register: the byte goes into the low end, and eight bits are divided out.
unfoldable pub divide_byte : ℕ → ℕ → ℕ
divide_byte crc b = table_rounds 8 (bit_xor crc b)

unfoldable pub divide_bytes : ℕ → List ℕ → ℕ
divide_bytes crc [] = crc
divide_bytes crc (b ∷ bs) = divide_bytes (divide_byte crc b) bs

get_or-table_from : (n i k : ℕ) → k < n → get_or (table_from n i) k 0 ≡ table_rounds 8 (i + k)
unfolding table_from
get_or-table_from zero i k h = absurd (omega arith)
get_or-table_from (suc n) i zero h = ap (table_rounds 8) (omega arith)
get_or-table_from (suc n) i (suc k) h =
    get_or-table_from n (i + 1) k (omega arith) ∙ ap (table_rounds 8) (omega arith)

get_or-crc32_table : (k : ℕ) → k < 256 → get_or crc32_table k 0 ≡ table_rounds 8 k
unfolding crc32_table
get_or-crc32_table k h = get_or-table_from 256 0 k h ∙ ap (table_rounds 8) (omega arith)

-- A register is its low byte and the rest.
rounds_split : (x : ℕ) → table_rounds 8 x ≡ bit_xor (table_rounds 8 (x % 2 ^ 8)) (x / 2 ^ 8)
rounds_split x =
    ap (table_rounds 8) whole
    ∙ table_rounds-bit_xor 8 (x % 2 ^ 8) (x / 2 ^ 8 * 2 ^ 8)
    ∙ ap (bit_xor (table_rounds 8 (x % 2 ^ 8))) (table_rounds-shift 8 (x / 2 ^ 8))
  where
    whole : x ≡ bit_xor (x % 2 ^ 8) (x / 2 ^ 8 * 2 ^ 8)
    whole = omega (arith, bit_xor-shift 8 (x % 2 ^ 8) (x / 2 ^ 8) (omega arith))

crc32_step-divide_byte : (crc b : ℕ) → b < 2 ^ 8 → crc32_step crc b ≡ divide_byte crc b
unfolding crc32_step divide_byte
crc32_step-divide_byte crc b h =
    rw (bit_and-mask 8 (bit_xor crc b), get_or-crc32_table (bit_xor crc b % 2 ^ 8) (omega arith))
      (sym (rounds_split (bit_xor crc b) ∙ ap (bit_xor _) (bit_xor-byte-shr crc b h)))

-- The table-driven loop computes the bitwise division, over bytes and from every register.
pub crc32_update-divide_bytes :
    (crc : ℕ) (bs : List ℕ) → All (λ b. b < 2 ^ 8) bs → crc32_update crc bs ≡ divide_bytes crc bs
unfolding crc32_update divide_bytes
crc32_update-divide_bytes crc [] h = refl
crc32_update-divide_bytes crc (b ∷ bs) h =
    rw (crc32_step-divide_byte crc b h.0) (crc32_update-divide_bytes (divide_byte crc b) bs h.1)

divide_bytes-lt :
    (crc : ℕ) (bs : List ℕ) → crc < 2 ^ 32 → All (λ b. b < 2 ^ 8) bs → divide_bytes crc bs < 2 ^ 32
unfolding divide_bytes divide_byte
divide_bytes-lt crc [] h a = h
divide_bytes-lt crc (b ∷ bs) h a =
    divide_bytes-lt (table_rounds 8 (bit_xor crc b)) bs
      (table_rounds-lt 8 (bit_xor crc b) (bit_xor-lt 32 crc b h (omega (arith, a.0)))) a.1

-- The register stays within 32 bits.
pub crc32_update-lt :
    (crc : ℕ) (bs : List ℕ) → crc < 2 ^ 32 → All (λ b. b < 2 ^ 8) bs → crc32_update crc bs < 2 ^ 32
crc32_update-lt crc bs h a = rw (crc32_update-divide_bytes crc bs a) (divide_bytes-lt crc bs h a)

-- An update in two pieces is the update of the whole.
pub crc32_update-append :
    (crc : ℕ) (xs ys : List ℕ) → crc32_update crc (xs ++ ys) ≡ crc32_update (crc32_update crc xs) ys
unfolding crc32_update
crc32_update-append crc [] ys = refl
crc32_update-append crc (x ∷ xs) ys = crc32_update-append (crc32_step crc x) xs ys
