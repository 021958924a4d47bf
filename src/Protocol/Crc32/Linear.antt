-- ===== src/Protocol/Crc32/Linear.antt =====
-- shared/protocol/crc32.cpp: the round of the table over `^`.
use Prim.Native.Nat.{differ}
use espview.Base.{
  ℕ, zero, suc, ◌*◌, ◌/◌, ◌%◌, ◌^◌, ◌<◌, ◌≡◌, refl, sym, ap, ◌⊎◌, inl, inr, arith, bit_and, bit_xor,
}
use espview.Base.Bits.{bit_and-mask, bit_xor-lt, zero-bit_xor, double_pow}
use espview.Base.Xor.{bit_xor-half, bit_xor-parity, bit_xor_exchange}
use espview.Protocol.Crc32.{crc32_poly, table_round, table_rounds}

bit_and-one : (c : ℕ) → bit_and c 1 ≡ c % 2
bit_and-one c = bit_and-mask 1 c

pub parity-cases : (c : ℕ) → (c % 2 ≡ 0) ⊎ (c % 2 ≡ 1)
parity-cases c = omega arith

-- The polynomial, or nothing, by the lowest bit.
unfoldable pub feedback : ℕ → ℕ
feedback zero = 0
feedback (suc n) = crc32_poly

pub round_split : (c : ℕ) → table_round c ≡ bit_xor (feedback (c % 2)) (c / 2)
unfolding table_round feedback
round_split c = elim (parity-cases c) [
  | inl e ↦ rw (bit_and-one c, e) (sym (zero-bit_xor (c / 2)))
  | inr e ↦ rw (bit_and-one c, e) refl
]

feedback-differ :
    (x y : ℕ) → x < 2 → y < 2 → feedback (differ x y) ≡ bit_xor (feedback x) (feedback y)
unfolding feedback
feedback-differ zero y hx hy = sym (zero-bit_xor (feedback y))
feedback-differ (suc zero) zero hx hy = refl
feedback-differ (suc zero) (suc zero) hx hy = refl
feedback-differ (suc zero) (suc (suc y)) hx hy = absurd (omega arith)
feedback-differ (suc (suc x)) y hx hy = absurd (omega arith)

round-bit_xor : (a b : ℕ) → table_round (bit_xor a b) ≡ bit_xor (table_round a) (table_round b)
round-bit_xor a b =
    rw
      (
        round_split (bit_xor a b),
        round_split a,
        round_split b,
        bit_xor-half,
        bit_xor-parity,
        feedback-differ (a % 2) (b % 2) (omega arith) (omega arith),
      )
      (bit_xor_exchange (feedback (a % 2)) (feedback (b % 2)) (a / 2) (b / 2))

-- The rounds of a sum are the sum of the rounds.
pub table_rounds-bit_xor :
    (n a b : ℕ) → table_rounds n (bit_xor a b) ≡ bit_xor (table_rounds n a) (table_rounds n b)
unfolding table_rounds
table_rounds-bit_xor zero a b = refl
table_rounds-bit_xor (suc n) a b =
    rw (round-bit_xor a b) (table_rounds-bit_xor n (table_round a) (table_round b))

round-shift : (n q : ℕ) → table_round (q * 2 ^ suc n) ≡ q * 2 ^ n
unfolding feedback
round-shift n q =
    let twice : q * 2 ^ suc n ≡ 2 * (q * 2 ^ n) =
      omega (arith, ap (λ (t : ℕ). q * t) (double_pow n)) in
    let even : 2 * (q * 2 ^ n) % 2 ≡ 0 = omega arith in
    rw (twice, round_split (2 * (q * 2 ^ n)), even, zero-bit_xor (2 * (q * 2 ^ n) / 2))
      (omega arith)

-- With no low bit set, a round is a shift.
pub table_rounds-shift : (n q : ℕ) → table_rounds n (q * 2 ^ n) ≡ q
unfolding table_rounds
table_rounds-shift zero q = omega arith
table_rounds-shift (suc n) q = rw (round-shift n q) (table_rounds-shift n q)

feedback-lt : (x : ℕ) → feedback x < 2 ^ 32
unfolding feedback
feedback-lt zero = omega arith
feedback-lt (suc x) = omega arith

pub table_round-lt : (c : ℕ) → c < 2 ^ 32 → table_round c < 2 ^ 32
table_round-lt c h =
    rw (round_split c)
      (bit_xor-lt 32 (feedback (c % 2)) (c / 2) (feedback-lt (c % 2)) (omega arith))

pub table_rounds-lt : (n c : ℕ) → c < 2 ^ 32 → table_rounds n c < 2 ^ 32
unfolding table_rounds
table_rounds-lt zero c h = h
table_rounds-lt (suc n) c h = table_rounds-lt n (table_round c) (table_round-lt c h)
