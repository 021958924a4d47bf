-- ===== src/Base/Bits.antt =====
-- Laws of `|`, `&` and `^` at variables: the lowest digit of each, disjoint fields, low masks, the
-- range of `^`, and the checks of every byte that the flag tests rest on.
use Prim.Native.Nat.{
  ℕ, zero, suc, ◌+◌, ◌-◌, ◌*◌, ◌/◌, ◌%◌, ◌^◌, ◌≤◌, ◌<◌, min, max, digits, bitwise, differ, bit_and,
  bit_or, bit_xor, bit_and-bitwise, bit_or-bitwise, bit_xor-bitwise,
}
use mathlib.Core.Path.{◌≡◌, refl, ap}
use native.Mathlib.Nat.{
  pow-suc, one-le-pow, mod-eq-sub-div-mul, div-mul-le_self, div-div-eq-div-mul,
}
use native.Mathlib.Omega.{arith}

module _ (z : ℕ → ℕ) (f : ℕ → ℕ → ℕ) where
  fuel_irrelevant : (n m a b : ℕ) → a ≤ n → a ≤ m → digits z f n a b ≡ digits z f m a b
  fuel_irrelevant n m zero b p q = at_zero n m
    where
      at_zero : (n m : ℕ) → digits z f n 0 b ≡ digits z f m 0 b
      at_zero zero zero = refl
      at_zero zero (suc m) = refl
      at_zero (suc n) zero = refl
      at_zero (suc n) (suc m) = refl
  fuel_irrelevant zero m (suc a) b p q = absurd (omega arith)
  fuel_irrelevant (suc n) zero (suc a) b p q = absurd (omega arith)
  fuel_irrelevant (suc n) (suc m) (suc a) b p q =
      rw (fuel_irrelevant n m (suc a / 2) (b / 2) (omega arith) (omega arith))

  lowest_digit :
      (m n : ℕ)
      → bitwise z f (suc m) n ≡ bitwise z f (suc m / 2) (n / 2) * 2 + f (suc m % 2) (n % 2)
  lowest_digit m n =
      rw (fuel_irrelevant m (suc m / 2) (suc m / 2) (n / 2) (omega arith) (omega arith))

bit_or_digit : (a b : ℕ) → bit_or a b ≡ bit_or (a / 2) (b / 2) * 2 + max (a % 2) (b % 2)
bit_or_digit zero b = simp bit_or-bitwise (omega arith)
bit_or_digit (suc a) b = simp bit_or-bitwise (lowest_digit (λ y. y) max a b)

bit_and_digit : (m n : ℕ) → bit_and m n ≡ bit_and (m / 2) (n / 2) * 2 + min (m % 2) (n % 2)
bit_and_digit zero n = simp bit_and-bitwise (omega arith)
bit_and_digit (suc m) n = simp bit_and-bitwise (lowest_digit (λ y. 0) min m n)

pub bit_xor_digit : (a b : ℕ) → bit_xor a b ≡ bit_xor (a / 2) (b / 2) * 2 + differ (a % 2) (b % 2)
bit_xor_digit zero b = simp bit_xor-bitwise (omega arith)
bit_xor_digit (suc a) b = simp bit_xor-bitwise (lowest_digit (λ y. y) differ a b)

zero-bit_or : (b : ℕ) → bit_or 0 b ≡ b
zero-bit_or b = bit_or-bitwise 0 b

zero-bit_and : (b : ℕ) → bit_and 0 b ≡ 0
zero-bit_and b = bit_and-bitwise 0 b

pub zero-bit_xor : (b : ℕ) → bit_xor 0 b ≡ b
zero-bit_xor b = bit_xor-bitwise 0 b

bit_and-zero_below : (n a : ℕ) → a < n → bit_and a 0 ≡ 0
bit_and-zero_below zero a h = absurd (omega arith)
bit_and-zero_below (suc n) zero h = refl
bit_and-zero_below (suc n) (suc a) h =
    omega (arith, bit_and_digit (suc a) 0, bit_and-zero_below n (suc a / 2) (omega arith))

double_shift : (q k : ℕ) → q * 2 ^ suc k ≡ 2 * (q * 2 ^ k)
double_shift q k = omega (arith, ap (λ (t : ℕ). q * t) (pow-suc 2 k))

-- `r | q << k` is a sum where `r` fits the `k` bits below `q`.
pub bit_or-shift : (k r q : ℕ) → r < 2 ^ k → bit_or r (q * 2 ^ k) ≡ r + q * 2 ^ k
bit_or-shift zero zero q h = omega (arith, zero-bit_or (q * 1))
bit_or-shift zero (suc r) q h = absurd (omega arith)
bit_or-shift (suc k) r q h = ground (
  arith,
  bit_or_digit r (q * 2 ^ suc k),
  double_shift q k,
  pow-suc 2 k,
  bit_or-shift k (r / 2) q (omega (arith, pow-suc 2 k)),
)

bit_or-zero_below : (n a : ℕ) → a < n → bit_or a 0 ≡ a
bit_or-zero_below zero a h = absurd (omega arith)
bit_or-zero_below (suc n) zero h = refl
bit_or-zero_below (suc n) (suc a) h =
    omega (arith, bit_or_digit (suc a) 0, bit_or-zero_below n (suc a / 2) (omega arith))

-- The same with the high part first.
pub bit_or-shift_left : (k q r : ℕ) → r < 2 ^ k → bit_or (q * 2 ^ k) r ≡ q * 2 ^ k + r
bit_or-shift_left zero q zero h =
    omega (arith, bit_or-zero_below (suc (q * 1)) (q * 1) (omega arith))
bit_or-shift_left zero q (suc r) h = absurd (omega arith)
bit_or-shift_left (suc k) q r h = ground (
  arith,
  bit_or_digit (q * 2 ^ suc k) r,
  double_shift q k,
  pow-suc 2 k,
  bit_or-shift_left k q (r / 2) (omega (arith, pow-suc 2 k)),
)

halved_mask : (p d : ℕ) → 1 ≤ p → d ≡ 2 * p → (d - 1) / 2 ≡ p - 1
halved_mask p d h e = omega arith

pub double_pow : (k : ℕ) → 2 ^ suc k ≡ 2 * 2 ^ k
double_pow k = omega (arith, pow-suc 2 k)

mod-double : (a p : ℕ) → a % (2 * p) ≡ 2 * (a / 2 % p) + a % 2
mod-double a p = omega (
  arith,
  mod-eq-sub-div-mul a (2 * p),
  mod-eq-sub-div-mul (a / 2) p,
  div-mul-le_self a (2 * p),
  div-mul-le_self (a / 2) p,
  div-div-eq-div-mul a 2 p,
  ap (λ (t : ℕ). t * p) (div-div-eq-div-mul a 2 p),
)

pub differ-lt : (x y : ℕ) → x < 2 → y < 2 → differ x y < 2
differ-lt zero y h k = k
differ-lt (suc x) zero h k = h
differ-lt (suc x) (suc y) h k = differ-lt x y (omega arith) (omega arith)

-- A mask of `k` ones is the remainder by `2 ^ k`.
pub bit_and-mask : (k a : ℕ) → bit_and a (2 ^ k - 1) ≡ a % 2 ^ k
bit_and-mask zero a = ground (arith, bit_and-zero_below (suc a) a)
bit_and-mask (suc k) a = omega (
  arith,
  bit_and_digit a (2 ^ suc k - 1),
  pow-suc 2 k,
  one-le-pow k 2 (omega arith),
  ap (λ (t : ℕ). bit_and (a / 2) t)
      (halved_mask (2 ^ k) (2 ^ suc k) (omega (arith, one-le-pow k 2 (omega arith)))
        (omega (arith, pow-suc 2 k))),
  mod-double a (2 ^ k),
  ap (λ (t : ℕ). a % t) (double_pow k),
  bit_and-mask k (a / 2),
)

-- `^` stays within the width of its operands.
pub bit_xor-lt : (k a b : ℕ) → a < 2 ^ k → b < 2 ^ k → bit_xor a b < 2 ^ k
bit_xor-lt zero zero b ha hb = omega (arith, zero-bit_xor b)
bit_xor-lt zero (suc a) b ha hb = absurd (omega arith)
bit_xor-lt (suc k) a b ha hb = omega (
  arith,
  bit_xor_digit a b,
  pow-suc 2 k,
  differ-lt (a % 2) (b % 2) (omega arith) (omega arith),
  bit_xor-lt k (a / 2) (b / 2) (omega (arith, pow-suc 2 k)) (omega (arith, pow-suc 2 k)),
)
