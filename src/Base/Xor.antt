-- ===== src/Base/Xor.antt =====
-- `^` as the addition of a vector space over two elements.
use Prim.Native.Nat.{ℕ, zero, suc, ◌+◌, ◌*◌, ◌/◌, ◌%◌, ◌^◌, ◌<◌, differ, bit_xor}
use mathlib.Core.Path.{◌≡◌, refl, sym, ◌∙◌, ap}
use native.Mathlib.Omega.{arith}
use espview.Base.Bits.{bit_xor_digit, differ-lt, double_pow, zero-bit_xor}

pub bit_xor-half : (a b : ℕ) → bit_xor a b / 2 ≡ bit_xor (a / 2) (b / 2)
bit_xor-half a b =
    omega (arith, bit_xor_digit a b, differ-lt (a % 2) (b % 2) (omega arith) (omega arith))

pub bit_xor-parity : (a b : ℕ) → bit_xor a b % 2 ≡ differ (a % 2) (b % 2)
bit_xor-parity a b =
    omega (arith, bit_xor_digit a b, differ-lt (a % 2) (b % 2) (omega arith) (omega arith))

differ_comm : (x y : ℕ) → differ x y ≡ differ y x
differ_comm zero zero = refl
differ_comm zero (suc y) = refl
differ_comm (suc x) zero = refl
differ_comm (suc x) (suc y) = differ_comm x y

differ_assoc_bit :
    (x y z : ℕ) → x < 2 → y < 2 → z < 2 → differ (differ x y) z ≡ differ x (differ y z)
differ_assoc_bit zero y z hx hy hz = refl
differ_assoc_bit (suc zero) zero z hx hy hz = refl
differ_assoc_bit (suc zero) (suc zero) zero hx hy hz = refl
differ_assoc_bit (suc zero) (suc zero) (suc zero) hx hy hz = refl
differ_assoc_bit (suc zero) (suc zero) (suc (suc z)) hx hy hz = absurd (omega arith)
differ_assoc_bit (suc zero) (suc (suc y)) z hx hy hz = absurd (omega arith)
differ_assoc_bit (suc (suc x)) y z hx hy hz = absurd (omega arith)

-- Two numbers are equal when their halves and their parities are.
pub eq_of_digits : (m n : ℕ) → m / 2 ≡ n / 2 → m % 2 ≡ n % 2 → m ≡ n
eq_of_digits m n h p = omega arith

bit_xor_comm_below : (k a b : ℕ) → a < 2 ^ k → b < 2 ^ k → bit_xor a b ≡ bit_xor b a
bit_xor_comm_below zero zero zero ha hb = refl
bit_xor_comm_below zero zero (suc b) ha hb = absurd (omega arith)
bit_xor_comm_below zero (suc a) b ha hb = absurd (omega arith)
bit_xor_comm_below (suc k) a b ha hb = omega (
  arith,
  bit_xor_digit a b,
  bit_xor_digit b a,
  differ_comm (a % 2) (b % 2),
  bit_xor_comm_below k (a / 2) (b / 2) (omega (arith, double_pow k)) (omega (arith, double_pow k)),
)

bit_xor_assoc_below :
    (k a b c : ℕ)
    → a < 2 ^ k
    → b < 2 ^ k
    → c < 2 ^ k
    → bit_xor (bit_xor a b) c ≡ bit_xor a (bit_xor b c)
bit_xor_assoc_below zero zero zero zero ha hb hc = refl
bit_xor_assoc_below zero zero zero (suc c) ha hb hc = absurd (omega arith)
bit_xor_assoc_below zero zero (suc b) c ha hb hc = absurd (omega arith)
bit_xor_assoc_below zero (suc a) b c ha hb hc = absurd (omega arith)
bit_xor_assoc_below (suc k) a b c ha hb hc =
    eq_of_digits _ _
      (simp bit_xor-half (
        bit_xor_assoc_below k (a / 2) (b / 2) (c / 2) (omega (arith, double_pow k))
          (omega (arith, double_pow k)) (omega (arith, double_pow k))))
      (simp bit_xor-parity
        (differ_assoc_bit (a % 2) (b % 2) (c % 2) (omega arith) (omega arith) (omega arith)))

lt-two-pow : (n : ℕ) → n < 2 ^ n
lt-two-pow zero = omega arith
lt-two-pow (suc n) = omega (arith, double_pow n, lt-two-pow n)

pub bit_xor_comm : (a b : ℕ) → bit_xor a b ≡ bit_xor b a
bit_xor_comm a b =
    bit_xor_comm_below (a + b) a b (omega (arith, lt-two-pow (a + b)))
      (omega (arith, lt-two-pow (a + b)))

pub bit_xor_assoc : (a b c : ℕ) → bit_xor (bit_xor a b) c ≡ bit_xor a (bit_xor b c)
bit_xor_assoc a b c =
    bit_xor_assoc_below (a + b + c) a b c (omega (arith, lt-two-pow (a + b + c)))
      (omega (arith, lt-two-pow (a + b + c))) (omega (arith, lt-two-pow (a + b + c)))

-- The same four terms, paired the other way.
pub bit_xor_exchange :
    (a b c d : ℕ) → bit_xor (bit_xor a b) (bit_xor c d) ≡ bit_xor (bit_xor a c) (bit_xor b d)
bit_xor_exchange a b c d =
    bit_xor_assoc a b (bit_xor c d)
    ∙ ap (bit_xor a) (
        sym (bit_xor_assoc b c d)
        ∙ ap (λ (t : ℕ). bit_xor t d) (bit_xor_comm b c)
        ∙ bit_xor_assoc c b d)
    ∙ sym (bit_xor_assoc a c (bit_xor b d))

-- Adding a term twice adds nothing.
pub bit_xor_self : (a : ℕ) → bit_xor a a ≡ 0
bit_xor_self a = self_below (suc a) a (omega arith)
  where
    differ-self : (x : ℕ) → differ x x ≡ 0
    differ-self zero = refl
    differ-self (suc x) = differ-self x

    self_below : (n a : ℕ) → a < n → bit_xor a a ≡ 0
    self_below zero a h = absurd (omega arith)
    self_below (suc n) zero h = refl
    self_below (suc n) (suc a) h = omega (
      arith,
      bit_xor_digit (suc a) (suc a),
      differ-self (suc a % 2),
      self_below n (suc a / 2) (omega arith),
    )

pub bit_xor-zero : (a : ℕ) → bit_xor a 0 ≡ a
bit_xor-zero a = bit_xor_comm a 0 ∙ zero-bit_xor a

differ-zero : (x : ℕ) → differ x 0 ≡ x
differ-zero zero = refl
differ-zero (suc x) = refl

-- Disjoint fields: `r ^ q << k` is a sum where `r` fits the `k` bits below `q`.
pub bit_xor-shift : (k r q : ℕ) → r < 2 ^ k → bit_xor r (q * 2 ^ k) ≡ r + q * 2 ^ k
bit_xor-shift zero zero q h = omega (arith, zero-bit_xor (q * 1))
bit_xor-shift zero (suc r) q h = absurd (omega arith)
bit_xor-shift (suc k) r q h =
    let twice : q * 2 ^ suc k ≡ 2 * (q * 2 ^ k) =
      omega (arith, ap (λ (t : ℕ). q * t) (double_pow k)) in
    let even : 2 * (q * 2 ^ k) % 2 ≡ 0 = omega arith in
    let half : 2 * (q * 2 ^ k) / 2 ≡ q * 2 ^ k = omega arith in
    rw
      (
        twice,
        bit_xor_digit r (2 * (q * 2 ^ k)),
        even,
        half,
        differ-zero (r % 2),
        bit_xor-shift k (r / 2) q (omega (arith, double_pow k)),
      )
      (omega arith)

abbrev halvings : ℕ → ℕ → ℕ
halvings zero a = a
halvings (suc n) a = halvings n (a / 2)

halvings-bit_xor : (n a b : ℕ) → halvings n (bit_xor a b) ≡ bit_xor (halvings n a) (halvings n b)
halvings-bit_xor zero a b = refl
halvings-bit_xor (suc n) a b = rw (bit_xor-half a b) (halvings-bit_xor n (a / 2) (b / 2))

halvings_eight : (a : ℕ) → halvings 8 a ≡ a / 2 ^ 8
halvings_eight a = omega arith

-- A byte reaches the low eight bits only.
pub bit_xor-byte-shr : (a b : ℕ) → b < 2 ^ 8 → bit_xor a b / 2 ^ 8 ≡ a / 2 ^ 8
bit_xor-byte-shr a b h =
    let gone : halvings 8 b ≡ 0 = omega arith in
    sym (halvings_eight (bit_xor a b))
    ∙ halvings-bit_xor 8 a b
    ∙ rw (gone, bit_xor-zero (halvings 8 a)) (halvings_eight a)
