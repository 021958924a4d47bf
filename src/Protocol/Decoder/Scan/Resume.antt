-- ===== src/Protocol/Decoder/Scan/Resume.antt =====
-- shared/protocol/decoder.cpp: the search for the magic over a buffer, and over more bytes.
use espview.Base.{
  ℕ, zero, suc, ◌+◌, ◌-◌, ◌≤◌, ◌<◌, ◌≡◌, refl, sym, ap, ◌∙◌, ◌⊎◌, inl, inr, arith, List, [], ◌∷◌,
  ◌++◌, length, drop, length-drop, length-append, drop-append_le, drop-drop,
}
use espview.Protocol.Decoder.Scan.{
  ScanResult, keep_from, found, magic_rest, starts_magic, skip, scan,
}
use espview.Protocol.Decoder.Scan.Cases.{
  past, cut, whole, other, case, matched, matching-append, scan-past, scan-cut, scan-whole,
  scan-other,
}

skip_bounds :
    (at : List ℕ) (m : ℕ) → 0 < m → m < length at → (0 < skip at m) × (skip at m ≤ length at)
unfolding skip
skip_bounds at m p l = ground arith

starts_magic-append :
    (at more : List ℕ) (m : ℕ)
    → m < length at
    → starts_magic (drop m at ++ more) ≡ starts_magic (drop m at)
starts_magic-append [] more m l = absurd (omega arith)
starts_magic-append (b ∷ at) more zero l = refl
starts_magic-append (b ∷ at) more (suc m) l = starts_magic-append at more m (omega arith)

skip-append : (at more : List ℕ) (m : ℕ) → m < length at → skip (at ++ more) m ≡ skip at m
unfolding skip
skip-append at more m l =
    rw (drop-append_le m at more (omega arith), starts_magic-append at more m l) refl

-- How far a turn goes from a candidate that is none.
abbrev pub far : ℕ → List ℕ → ℕ
far b bytes = skip (b ∷ bytes) (matched bytes)

pub far_bounds :
    (b : ℕ) (bytes : List ℕ)
    → matched bytes < suc (length bytes)
    → (0 < far b bytes) × (far b bytes ≤ suc (length bytes))
far_bounds b bytes l = skip_bounds (b ∷ bytes) (matched bytes) (omega arith) l

pub scan-empty : (f i : ℕ) → scan (suc f) [] i ≡ keep_from i
unfolding scan
scan-empty f i = refl

-- Fuel above the number of bytes is as good as any other.
pub scan_fuel :
    (f g : ℕ) (at : List ℕ) (i : ℕ) → length at < f → length at < g → scan f at i ≡ scan g at i
scan_fuel zero g at i hf hg = absurd (omega arith)
scan_fuel (suc f) zero at i hf hg = absurd (omega arith)
scan_fuel (suc f) (suc g) [] i hf hg = scan-empty f i ∙ sym (scan-empty g i)
scan_fuel (suc f) (suc g) (b ∷ bytes) i hf hg = elim (case b bytes) [
  | past e ↦
      scan-past f b bytes i e
      ∙ scan_fuel f g bytes (i + 1) (omega arith) (omega arith)
      ∙ sym (scan-past g b bytes i e)
  | cut e m s ↦ scan-cut f b bytes i e m s ∙ sym (scan-cut g b bytes i e m s)
  | whole e m ↦ scan-whole f b bytes i e m ∙ sym (scan-whole g b bytes i e m)
  | other e s m ↦
      scan-other f b bytes i e s m
      ∙ scan_fuel f g (drop (far b bytes) (b ∷ bytes)) (i + far b bytes)
          (omega (arith, far_bounds b bytes m, length-drop (far b bytes) (b ∷ bytes)))
          (omega (arith, far_bounds b bytes m, length-drop (far b bytes) (b ∷ bytes)))
      ∙ sym (scan-other g b bytes i e s m)
]

-- The index is among the bytes.
abbrev pub Within : ℕ → ℕ → ScanResult → Type 0
Within lo hi (keep_from k) = (lo ≤ k) × (k ≤ hi)
Within lo hi (found k) = (lo ≤ k) × (k ≤ hi)

Within-wider :
    (r : ScanResult) (lo hi lo' hi' : ℕ) → lo' ≤ lo → hi ≤ hi' → Within lo hi r → Within lo' hi' r
Within-wider (keep_from k) lo hi lo' hi' a b w = omega arith
Within-wider (found k) lo hi lo' hi' a b w = omega arith

pub scan-Within :
    (f : ℕ) (at : List ℕ) (i : ℕ) → length at < f → Within i (i + length at) (scan f at i)
scan-Within zero at i h = absurd (omega arith)
scan-Within (suc f) [] i h = rw (scan-empty f i) (omega arith)
scan-Within (suc f) (b ∷ bytes) i h = elim (case b bytes) [
  | past e ↦ rw (scan-past f b bytes i e) (
      Within-wider (scan f bytes (i + 1)) (i + 1) (i + 1 + length bytes) i (i + suc (length bytes))
        (omega arith) (omega arith) (scan-Within f bytes (i + 1) (omega arith)))
  | cut e m s ↦ rw (scan-cut f b bytes i e m s) (omega arith)
  | whole e m ↦ rw (scan-whole f b bytes i e m) (omega arith)
  | other e s m ↦
      let bounds = far_bounds b bytes m in
      let left = length-drop (far b bytes) (b ∷ bytes) in
      rw (scan-other f b bytes i e s m) (
        Within-wider (scan f (drop (far b bytes) (b ∷ bytes)) (i + far b bytes)) (i + far b bytes)
          (i + far b bytes + length (drop (far b bytes) (b ∷ bytes))) i (i + suc (length bytes))
          (omega arith) (omega arith)
          (scan-Within f (drop (far b bytes) (b ∷ bytes)) (i + far b bytes) (omega arith)))
]

-- What a search over `at` that ended in the result makes of more bytes.
abbrev pub resumed : ℕ → List ℕ → List ℕ → ℕ → ScanResult → ScanResult
resumed h more at i (keep_from k) = scan h (drop (k - i) at ++ more) k
resumed h more at i (found k) = found k

resumed_further :
    (h n : ℕ) (more at : List ℕ) (i j : ℕ) (r : ScanResult)
    → i + n ≡ j
    → Within j (j + length (drop n at)) r
    → resumed h more (drop n at) j r ≡ resumed h more at i r
resumed_further h n more at i j (keep_from k) e w =
    let sum : n + (k - j) ≡ k - i = omega arith in rw (drop-drop n (k - j) at, sum) refl
resumed_further h n more at i j (found k) e w = refl

matched-append :
    (bytes more : List ℕ)
    → (matched bytes < suc (length bytes)) ⊎ (matched bytes ≡ 4)
    → matched (bytes ++ more) ≡ matched bytes
matched-append bytes more (inl m) =
    ap suc (matching-append magic_rest bytes more (inl (omega arith)))
matched-append bytes more (inr m) =
    ap suc (matching-append magic_rest bytes more (inr (omega arith)))

far-append :
    (b : ℕ) (bytes more : List ℕ)
    → matched bytes < suc (length bytes)
    → far b (bytes ++ more) ≡ far b bytes
far-append b bytes more m =
    ap (skip (b ∷ (bytes ++ more))) (matched-append bytes more (inl m))
    ∙ skip-append (b ∷ bytes) more (matched bytes) m

-- Nothing is lost by searching piece by piece.
pub scan_resume :
    (f g h : ℕ) (at more : List ℕ) (i : ℕ)
    → length at < f
    → length (at ++ more) < g
    → length (at ++ more) < h
    → scan g (at ++ more) i ≡ resumed h more at i (scan f at i)
scan_resume zero g h at more i hf hg hh = absurd (omega arith)
scan_resume (suc f) zero h at more i hf hg hh = absurd (omega arith)
scan_resume (suc f) (suc g) h [] more i hf hg hh =
    let none_kept : i - i ≡ 0 = omega arith in
    scan_fuel (suc g) h more i hg hh ∙ sym (rw (scan-empty f i, none_kept) refl)
scan_resume (suc f) (suc g) h (b ∷ bytes) more i hf hg hh = elim (case b bytes) [
  | past e ↦
      scan-past g b (bytes ++ more) i e
      ∙ scan_resume f g h bytes more (i + 1) (omega arith) (omega arith) (omega arith)
      ∙ resumed_further h 1 more (b ∷ bytes) i (i + 1) (scan f bytes (i + 1)) refl
          (scan-Within f bytes (i + 1) (omega arith))
      ∙ ap (resumed h more (b ∷ bytes) i) (sym (scan-past f b bytes i e))
  | cut e m s ↦
      let none_kept : i - i ≡ 0 = omega arith in
      scan_fuel (suc g) h (b ∷ (bytes ++ more)) i hg hh
      ∙ sym (rw (scan-cut f b bytes i e m s, none_kept) refl)
  | whole e m ↦
      scan-whole g b (bytes ++ more) i e (matched-append bytes more (inr m) ∙ m)
      ∙ ap (resumed h more (b ∷ bytes) i) (sym (scan-whole f b bytes i e m))
  | other e s m ↦
      let n = far b bytes in
      let bounds = far_bounds b bytes m in
      let left = length-drop n (b ∷ bytes) in
      let same = matched-append bytes more (inl m) in
      let all_left : length (drop n (b ∷ bytes) ++ more)
          ≡ length (drop n (b ∷ bytes)) + length more =
        length-append (drop n (b ∷ bytes)) more in
      let both = length-append bytes more in
      scan-other g b (bytes ++ more) i e (omega arith) (omega arith)
      ∙ rw (far-append b bytes more m, drop-append_le n (b ∷ bytes) more (omega arith))
          (scan_resume f g h (drop n (b ∷ bytes)) more (i + n) (omega arith) (omega arith)
            (omega arith))
      ∙ resumed_further h n more (b ∷ bytes) i (i + n) (scan f (drop n (b ∷ bytes)) (i + n)) refl
          (scan-Within f (drop n (b ∷ bytes)) (i + n) (omega arith))
      ∙ ap (resumed h more (b ∷ bytes) i) (sym (scan-other f b bytes i e s m))
]
