-- ===== src/Protocol/Crc32/Detect.antt =====
-- shared/protocol/crc32.cpp: the register as a function of one byte.
use espview.Base.{
  ℕ, zero, suc, ◌/◌, ◌%◌, ◌^◌, ◌<◌, ◌≡◌, sym, ap, ◌∙◌, ◌≢◌, inl, inr, arith, List, [], ◌∷◌, ◌++◌,
  bit_xor,
}
use espview.Base.Bits.{bit_xor-lt, zero-bit_xor}
use espview.Base.Bytes.{IsByte, IsBytes}
use espview.Base.Xor.{bit_xor_self, bit_xor-zero, bit_xor_assoc, bit_xor_comm}
use espview.Protocol.Crc32.{crc32_update, table_round, table_rounds}
use espview.Protocol.Crc32.Linear.{
  feedback, round_split, parity-cases, table_round-lt, table_rounds-lt, table_rounds-bit_xor,
}
use espview.Protocol.Crc32.Reference.{
  divide_byte, divide_bytes, crc32_update-divide_bytes, crc32_update-append, crc32_update-lt,
}

pub eq_of_bit_xor : (a b : ℕ) → bit_xor a b ≡ 0 → a ≡ b
eq_of_bit_xor a b e =
    sym (bit_xor-zero a)
    ∙ ap (bit_xor a) (sym (bit_xor_self b))
    ∙ sym (bit_xor_assoc a b b)
    ∙ ap (λ (t : ℕ). bit_xor t b) e
    ∙ zero-bit_xor b

-- The top bit of the polynomial is set, so a round that gives 0 fed nothing back.
table_round-eq_zero : (c : ℕ) → c < 2 ^ 32 → table_round c ≡ 0 → c ≡ 0
unfolding feedback
table_round-eq_zero c h e = elim (parity-cases c) [
  | inl even ↦
      let half : bit_xor (feedback (c % 2)) (c / 2) ≡ 0 = sym (round_split c) ∙ e in
      omega (arith, zero-bit_xor (c / 2), ap (λ (t : ℕ). bit_xor (feedback t) (c / 2)) even)
  | inr odd ↦
      let half : bit_xor (feedback (c % 2)) (c / 2) ≡ 0 = sym (round_split c) ∙ e in
      absurd (omega (arith, eq_of_bit_xor (feedback (c % 2)) (c / 2) half, ap feedback odd))
]

table_rounds-eq_zero : (n c : ℕ) → c < 2 ^ 32 → table_rounds n c ≡ 0 → c ≡ 0
unfolding table_rounds
table_rounds-eq_zero zero c h e = e
table_rounds-eq_zero (suc n) c h e =
    table_round-eq_zero c h (table_rounds-eq_zero n (table_round c) (table_round-lt c h) e)

table_rounds-injective :
    (n a b : ℕ) → a < 2 ^ 32 → b < 2 ^ 32 → table_rounds n a ≡ table_rounds n b → a ≡ b
table_rounds-injective n a b ha hb e = eq_of_bit_xor a b (
    table_rounds-eq_zero n (bit_xor a b) (bit_xor-lt 32 a b ha hb) (
      table_rounds-bit_xor n a b
      ∙ ap (λ (t : ℕ). bit_xor t (table_rounds n b)) e
      ∙ bit_xor_self (table_rounds n b)))

pub bit_xor_cancel_left : (c a b : ℕ) → bit_xor c a ≡ bit_xor c b → a ≡ b
bit_xor_cancel_left c a b e = sym (undo a) ∙ ap (bit_xor c) e ∙ undo b
  where
    undo : (x : ℕ) → bit_xor c (bit_xor c x) ≡ x
    undo x =
        sym (bit_xor_assoc c c x) ∙ ap (λ (t : ℕ). bit_xor t x) (bit_xor_self c) ∙ zero-bit_xor x

divide_byte-injective_byte :
    (c a b : ℕ) → c < 2 ^ 32 → IsByte a → IsByte b → divide_byte c a ≡ divide_byte c b → a ≡ b
unfolding divide_byte
divide_byte-injective_byte c a b hc ha hb e = bit_xor_cancel_left c a b (
    table_rounds-injective 8 (bit_xor c a) (bit_xor c b) (bit_xor-lt 32 c a hc (omega arith))
      (bit_xor-lt 32 c b hc (omega arith)) e)

divide_byte-lt : (c b : ℕ) → c < 2 ^ 32 → IsByte b → divide_byte c b < 2 ^ 32
unfolding divide_byte
divide_byte-lt c b hc hb = table_rounds-lt 8 (bit_xor c b) (bit_xor-lt 32 c b hc (omega arith))

divide_byte-injective :
    (c d b : ℕ) → c < 2 ^ 32 → d < 2 ^ 32 → IsByte b → divide_byte c b ≡ divide_byte d b → c ≡ d
unfolding divide_byte
divide_byte-injective c d b hc hd hb e = bit_xor_cancel_left b c d (
    bit_xor_comm b c
    ∙ table_rounds-injective 8 (bit_xor c b) (bit_xor d b) (bit_xor-lt 32 c b hc (omega arith))
        (bit_xor-lt 32 d b hd (omega arith)) e
    ∙ bit_xor_comm d b)

divide_bytes-injective :
    (bs : List ℕ) (c d : ℕ)
    → c < 2 ^ 32
    → d < 2 ^ 32
    → IsBytes bs
    → divide_bytes c bs ≡ divide_bytes d bs
    → c ≡ d
unfolding divide_bytes
divide_bytes-injective [] c d hc hd h e = e
divide_bytes-injective (b ∷ bs) c d hc hd h e = divide_byte-injective c d b hc hd h.0 (
    divide_bytes-injective bs (divide_byte c b) (divide_byte d b) (divide_byte-lt c b hc h.0)
      (divide_byte-lt d b hd h.0) h.1 e)

-- Two byte strings that differ in one place only never leave the same register.
pub crc32_update_one_byte :
    (crc a b : ℕ) (xs ys : List ℕ)
    → crc < 2 ^ 32
    → IsByte a
    → IsByte b
    → IsBytes xs
    → IsBytes ys
    → a ≢ b
    → crc32_update crc (xs ++ (a ∷ ys)) ≢ crc32_update crc (xs ++ (b ∷ ys))
unfolding divide_bytes
crc32_update_one_byte crc a b xs ys hc ha hb hx hy ne e = ne (
    divide_byte-injective_byte c a b hm ha hb (
      divide_bytes-injective ys (divide_byte c a) (divide_byte c b) (divide_byte-lt c a hm ha)
        (divide_byte-lt c b hm hb) hy (sym (expand a ha) ∙ e ∙ expand b hb)))
  where
    c : ℕ
    c = crc32_update crc xs

    hm : c < 2 ^ 32
    hm = crc32_update-lt crc xs hc hx

    expand : (x : ℕ) → IsByte x → crc32_update crc (xs ++ (x ∷ ys)) ≡ divide_bytes c (x ∷ ys)
    expand x hx' =
        crc32_update-append crc xs (x ∷ ys) ∙ crc32_update-divide_bytes c (x ∷ ys) (hx', hy)
