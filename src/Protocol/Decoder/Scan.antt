-- ===== src/Protocol/Decoder/Scan.antt =====
-- shared/protocol/decoder.cpp: the search for 'ESPV', the state kSync of `process`.
pub mod Cases
pub mod Resume
use espview.Base.{
  ℕ, zero, suc, ◌+◌, Bool, false, ◌&&◌, List, [], ◌∷◌, ltb, ◌==◌, ◌!=◌, if◌then◌else◌, length, drop,
}

abbrev pub magic0 : ℕ
magic0 = b'E'

-- What the magic goes on with.
abbrev pub magic_rest : List ℕ
magic_rest = b'S' ∷ b'P' ∷ b'V' ∷ []

-- How many bytes are as expected, from the first on.
abbrev pub matching : List ℕ → List ℕ → ℕ
matching [] bytes = 0
matching (e ∷ es) [] = 0
matching (e ∷ es) (b ∷ bytes) = if b == e then suc (matching es bytes) else 0

-- Where the search ends: the bytes before the index are rubbish, and a magic is there or may be.
pub data ScanResult : Type 0 where
  keep_from found : ℕ → ScanResult

abbrev pub starts_magic : List ℕ → Bool
starts_magic [] = false
starts_magic (b ∷ bytes) = b == magic0

-- How far to go from a candidate that failed after `matched` bytes.
unfoldable pub skip : List ℕ → ℕ → ℕ
skip at matched = if starts_magic (drop matched at) then matched else matched + 1

-- The loop over `i`; the list is the buffer from there on. The fuel bounds the turns.
unfoldable pub scan : ℕ → List ℕ → ℕ → ScanResult
unfolding skip
scan zero at i = keep_from i
scan (suc fuel) [] i = keep_from i
scan (suc fuel) (b ∷ bytes) i =
    let matched = suc (matching magic_rest bytes) in
    let far = skip (b ∷ bytes) matched in
    let past = scan fuel bytes (i + 1) in
    let next = scan fuel (drop far (b ∷ bytes)) (i + far) in
    if b != magic0
    then past
    else if matched == length (b ∷ bytes) && ltb matched 4
    then keep_from i
    else if matched == 4
    then found i
    else next
