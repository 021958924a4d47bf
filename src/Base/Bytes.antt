-- ===== src/Base/Bytes.antt =====
-- Byte strings, writes into a buffer, and the flag tests, checked over every byte.
use Prim.Native.Nat.{ℕ, zero, suc, ◌+◌, ◌%◌, ◌^◌, ◌<◌, bit_and, bit_or}
use mathlib.Core.Path.{◌≡◌, refl, ap}
use mathlib.Core.Bool.{Bool, true, false}
use mathlib.Core.List.{List, [], ◌∷◌, ◌++◌}
use native.Mathlib.Nat.{zero-add}
use native.Mathlib.Omega.{arith}
use espview.Base.Tests.{◌==◌, if◌then◌else◌}
use espview.Base.Lists.{length, take, drop, drop-append_left, All}

abbrev pub IsByte : ℕ → Type 0
IsByte b = b < 2 ^ 8

abbrev pub IsBytes : List ℕ → Type 0
IsBytes = All IsByte

-- `memcpy(buf + off, bs, n)`, where the bytes fit.
abbrev pub overwrite : ℕ → List ℕ → List ℕ → List ℕ
overwrite off bs buf = take off buf ++ (bs ++ drop (off + length bs) buf)

-- Two functions agree at every byte below the bound.
agree_to : (f g : ℕ → ℕ) → ℕ → Bool
agree_to f g zero = true
agree_to f g (suc bound) = if f bound == g bound then agree_to f g bound else false

agree_to_lem : (f g : ℕ → ℕ) (bound x : ℕ) → x < bound → agree_to f g bound ≡ true → f x ≡ g x
unfolding agree_to
agree_to_lem f g zero x below e = absurd (omega arith)
agree_to_lem f g (suc bound) x below e = ground (arith, agree_to_lem f g bound x)

-- An equation between functions of a byte holds if it holds at each of the 256.
by_table : (f g : ℕ → ℕ) (x : ℕ) → agree_to f g (2 ^ 8) ≡ true → IsByte x → f x ≡ g x
by_table f g x e h = agree_to_lem f g (2 ^ 8) x h e

-- Bit 0 is clear in `f & ~1`, set in `(f & ~1) | 1`, and neither touches the other bits.
pub clear_low-low : (f : ℕ) → IsByte f → bit_and (bit_and f 254) 1 ≡ 0
unfolding agree_to
clear_low-low f h = by_table (λ y. bit_and (bit_and y 254) 1) (λ y. 0) f refl h

pub clear_low_self : (f : ℕ) → IsByte f → bit_and (bit_and f 254) 254 ≡ bit_and f 254
unfolding agree_to
clear_low_self f h = by_table (λ y. bit_and (bit_and y 254) 254) (λ y. bit_and y 254) f refl h

pub set_low-low : (f : ℕ) → IsByte f → bit_and (bit_or (bit_and f 254) 1) 1 ≡ 1
unfolding agree_to
set_low-low f h = by_table (λ y. bit_and (bit_or (bit_and y 254) 1) 1) (λ y. 1) f refl h

pub clear-set_low : (f : ℕ) → IsByte f → bit_and (bit_or (bit_and f 254) 1) 254 ≡ bit_and f 254
unfolding agree_to
clear-set_low f h =
    by_table (λ y. bit_and (bit_or (bit_and y 254) 1) 254) (λ y. bit_and y 254) f refl h

pub clear_low-IsByte : (f : ℕ) → IsByte f → IsByte (bit_and f 254)
unfolding agree_to
clear_low-IsByte f h =
    omega (arith, by_table (λ y. bit_and y 254 % 2 ^ 8) (λ y. bit_and y 254) f refl h)

pub set_low-IsByte : (f : ℕ) → IsByte f → IsByte (bit_or (bit_and f 254) 1)
unfolding agree_to
set_low-IsByte f h = omega (
  arith,
  by_table (λ y. bit_or (bit_and y 254) 1 % 2 ^ 8) (λ y. bit_or (bit_and y 254) 1) f refl h,
)

-- A write over a part of equal length replaces that part.
pub overwrite-append :
    (xs ys bs zs : List ℕ)
    → length ys ≡ length bs
    → overwrite (length xs) bs (xs ++ (ys ++ zs)) ≡ xs ++ (bs ++ zs)
overwrite-append [] ys bs zs e = ap (λ ws. bs ++ ws) (rw (← e, zero-add) (drop-append_left ys zs))
overwrite-append (x ∷ xs) ys bs zs e =
    let shift : suc (length xs) + length bs ≡ suc (length xs + length bs) = omega arith in
    rw shift (ap (λ ws. x ∷ ws) (overwrite-append xs ys bs zs e))

pub overwrite-at :
    (n : ℕ) (xs ys bs zs : List ℕ)
    → n ≡ length xs
    → length ys ≡ length bs
    → overwrite n bs (xs ++ (ys ++ zs)) ≡ xs ++ (bs ++ zs)
overwrite-at n xs ys bs zs p e = rw p (overwrite-append xs ys bs zs e)
