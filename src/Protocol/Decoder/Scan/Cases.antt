-- ===== src/Protocol/Decoder/Scan/Cases.antt =====
-- shared/protocol/decoder.cpp: the four cases of a turn of the search, as equations.
use espview.Base.{
  ℕ, suc, ◌+◌, ◌≤◌, ◌<◌, ◌≡◌, refl, ◌⊎◌, inl, inr, arith, true, false, ◌&&◌, List, [], ◌∷◌, ◌++◌,
  ltb, ◌==◌, ◌!=◌, if◌then◌else◌, length, drop, Bool-cases,
}
use espview.Protocol.Decoder.Scan.{keep_from, found, magic0, magic_rest, matching, skip, scan}

pub matching-le-length :
    (es bs : List ℕ) → (matching es bs ≤ length es) × (matching es bs ≤ length bs)
matching-le-length [] bs = omega arith
matching-le-length (e ∷ es) [] = omega arith
matching-le-length (e ∷ es) (b ∷ bs) = ground (arith, matching-le-length es bs)

-- Bytes behind a mismatch, or behind a whole match, are not looked at.
pub matching-append :
    (es bs more : List ℕ)
    → (matching es bs < length bs) ⊎ (matching es bs ≡ length es)
    → matching es (bs ++ more) ≡ matching es bs
matching-append [] bs more h = refl
matching-append (e ∷ es) [] more h = absurd (omega arith)
matching-append (e ∷ es) (b ∷ bs) more h = ground (arith, matching-append es bs more)

abbrev pub matched : List ℕ → ℕ
matched bytes = suc (matching magic_rest bytes)

-- The byte and what follows it, as the search sees them.
pub data Case (b : ℕ) (bytes : List ℕ) : Type 0 where
  past : (b != magic0) ≡ true → Case b bytes
  cut :
      (b != magic0) ≡ false → matched bytes ≡ suc (length bytes) → matched bytes < 4 → Case b bytes
  whole : (b != magic0) ≡ false → matched bytes ≡ 4 → Case b bytes
  other :
      (b != magic0) ≡ false → matched bytes < 4 → matched bytes < suc (length bytes) → Case b bytes

matched_bounds : (bytes : List ℕ) → (matched bytes ≤ 4) × (matched bytes ≤ suc (length bytes))
matched_bounds bytes = omega (arith, matching-le-length magic_rest bytes)

split : (m n : ℕ) → (m ≤ 4) × (m ≤ n) → (m ≡ 4) ⊎ (((m ≡ n) × (m < 4)) ⊎ ((m < 4) × (m < n)))
split m n h = grind arith

-- The tests of a turn at a candidate, decided.
module _ {A : Type 0} (m n : ℕ) (x y z : A) where
  pick_cut : m ≡ n → m < 4 → (if m == n && ltb m 4 then x else if m == 4 then y else z) ≡ x
  pick_cut e l = ground arith

  pick_whole : m ≡ 4 → (if m == n && ltb m 4 then x else if m == 4 then y else z) ≡ y
  pick_whole e = ground arith

  pick_other : m < 4 → m < n → (if m == n && ltb m 4 then x else if m == 4 then y else z) ≡ z
  pick_other l e = ground arith

pub case : (b : ℕ) (bytes : List ℕ) → Case b bytes
case b bytes = elim (Bool-cases (b != magic0)) [
  | inl e ↦ past e
  | inr e ↦ elim (split (matched bytes) (suc (length bytes)) (matched_bounds bytes)) [
    | inl h ↦ whole e h
    | inr (inl h) ↦ cut e h.0 h.1
    | inr (inr h) ↦ other e h.0 h.1
  ]
]

module _ (fuel : ℕ) (b : ℕ) (bytes : List ℕ) (i : ℕ) where
  pub scan-past : (b != magic0) ≡ true → scan (suc fuel) (b ∷ bytes) i ≡ scan fuel bytes (i + 1)
  unfolding scan
  scan-past e = rw e refl

  pub scan-cut :
      (b != magic0) ≡ false
      → matched bytes ≡ suc (length bytes)
      → matched bytes < 4
      → scan (suc fuel) (b ∷ bytes) i ≡ keep_from i
  unfolding scan
  scan-cut e l s = rw e (pick_cut (matched bytes) (suc (length bytes)) _ _ _ l s)

  pub scan-whole :
      (b != magic0) ≡ false → matched bytes ≡ 4 → scan (suc fuel) (b ∷ bytes) i ≡ found i
  unfolding scan
  scan-whole e w = rw e (pick_whole (matched bytes) (suc (length bytes)) _ _ _ w)

  pub scan-other :
      (b != magic0) ≡ false
      → matched bytes < 4
      → matched bytes < suc (length bytes)
      → let far = skip (b ∷ bytes) (matched bytes) in
        scan (suc fuel) (b ∷ bytes) i ≡ scan fuel (drop far (b ∷ bytes)) (i + far)
  unfolding scan
  scan-other e s l = rw e (pick_other (matched bytes) (suc (length bytes)) _ _ _ s l)
