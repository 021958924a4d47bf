-- ===== src/Protocol/Decoder/Resuming.antt =====
-- shared/protocol/decoder.cpp: turns of the decoder, and turns that waited for more bytes.
use espview.Base.{
  ℕ, zero, suc, ◌+◌, ◌-◌, ◌≤◌, ◌<◌, ◌≡◌, refl, sym, ap, ◌∙◌, arith, true, false, List, [], ◌∷◌,
  ◌++◌, some, length, take, drop, length-drop, length-append, drop-drop, take-append_le,
  drop-append_le,
}
use mathlib.Core.Path.{subst}
use mathlib.Core.Bool.{false≢true}
use native.Mathlib.Decide.{dec_le}
use espview.Protocol.Packet.{packet_header_size, decode_header, verify_packet_crc}
use espview.Protocol.Decoder.{
  State, Core, Turn, turn, turn_at, wait, sync_turn, header_turn, verify_turn, verified_turn,
}
use espview.Protocol.Decoder.Reassembly.{Event}
use espview.Protocol.Decoder.Scan.{ScanResult, keep_from, found, scan}
use espview.Protocol.Decoder.Scan.Cases.{
  past, cut, whole, other, case, scan-past, scan-cut, scan-whole, scan-other,
}
use espview.Protocol.Decoder.Scan.Resume.{
  scan_fuel, scan-empty, far, far_bounds, Within, scan-Within, scan_resume, resumed,
}
use espview.Protocol.Decoder.Turns.{
  IsReadyAt, header-wait, header_on, payload_wait, payload_on, header_goes_on, payload_goes_on,
  verify_goes_on,
}
use espview.Protocol.Decoder.Run.{Run, stop, go}

abbrev sync_at : List ℕ → Core → Turn
sync_at bytes c = sync_turn (scan (suc (length bytes)) bytes 0) c

sync_append :
    (r : ScanResult) (h : ℕ) (bytes more : List ℕ) (c : Core)
    → (sync_turn r c).again ≡ true
    → sync_turn (resumed h more bytes 0 r) c ≡ sync_turn r c
unfolding sync_turn
sync_append (keep_from k) h bytes more c g = absurd (false≢true g)
sync_append (found k) h bytes more c g = refl

verify_append :
    (bytes more : List ℕ) (c : Core)
    → packet_header_size + c.candidate.length ≤ length bytes
    → verify_turn (bytes ++ more) c ≡ verify_turn bytes c
unfolding verify_turn
verify_append bytes more c l =
    let e : take c.candidate.length (drop packet_header_size (bytes ++ more))
        ≡ take c.candidate.length (drop packet_header_size bytes) =
      ap (take c.candidate.length) (drop-append_le packet_header_size bytes more (omega arith))
      ∙ take-append_le c.candidate.length (drop packet_header_size bytes) more
          (omega (arith, length-drop packet_header_size bytes)) in
    ap (λ (body : List ℕ). verified_turn (verify_packet_crc c.candidate body) body c) e

-- A turn that goes on does not look behind the bytes that are there.
pub turn_at-append :
    (s : State) (bytes more : List ℕ) (c : Core)
    → IsReadyAt s bytes c
    → (turn_at s bytes c).again ≡ true
    → turn_at s (bytes ++ more) c ≡ turn_at s bytes c
unfolding turn_at
turn_at-append State.sync bytes more c r g =
    let size = suc (length (bytes ++ more)) in
    ap (λ (r : ScanResult). sync_turn r c)
      (scan_resume (suc (length bytes)) size size bytes more 0 (omega arith) (omega arith)
        (omega arith))
    ∙ sync_append (scan (suc (length bytes)) bytes 0) size bytes more c g
turn_at-append State.header bytes more c r g = elim (dec_le packet_header_size (length bytes)) [
  | yes l ↦
      header_on (bytes ++ more) c (omega (arith, length-append bytes more))
      ∙ ap (λ (head : List ℕ). header_turn (decode_header (some head) (some c.candidate)) c)
          (take-append_le packet_header_size bytes more l)
      ∙ sym (header_on bytes c l)
  | no l ↦
      absurd (false≢true (ap (λ (t : Turn). t.again) (sym (header-wait bytes c (omega arith))) ∙ g))
]
turn_at-append State.payload bytes more c r g =
    elim (dec_le (packet_header_size + c.candidate.length) (length bytes)) [
      | yes l ↦
          payload_on (bytes ++ more) c (omega (arith, length-append bytes more))
          ∙ sym (payload_on bytes c l)
      | no l ↦
          absurd
            (false≢true (ap (λ (t : Turn). t.again) (sym (payload_wait bytes c (omega arith))) ∙ g))
    ]
turn_at-append State.verify bytes more c r g = verify_append bytes more c r

-- Two turns that do the same to what follows them.
pub record Same (bytes bytes' : List ℕ) (t t' : Turn) : Type 0 where
  pub core : t.core ≡ t'.core
  pub events : t.events ≡ t'.events
  pub again : t.again ≡ t'.again
  pub left : drop t.consumed bytes ≡ drop t'.consumed bytes'

pub Same-Run :
    {bytes bytes' : List ℕ} {c c' : Core} {left : List ℕ} {last : Core} {events : List Event}
    → Same bytes bytes' (turn bytes c) (turn bytes' c')
    → Run bytes' c' left last events
    → Run bytes c left last events
Same-Run s (stop a l e v) = stop (s.again ∙ a) (l ∙ sym s.left) (e ∙ sym s.core) (v ∙ sym s.events)
Same-Run s (go {rest = rest} a r v) =
    go {rest = rest} (s.again ∙ a) (rw (s.left, s.core) r)
      (v ∙ ap (λ (es : List Event). es ++ rest) (sym s.events))

-- The offset only counts along.
shifted : ℕ → ScanResult → ScanResult
shifted k (keep_from n) = keep_from (k + n)
shifted k (found n) = found (k + n)

scan_shift :
    (f k i j : ℕ) (bytes : List ℕ)
    → j ≡ k + i
    → length bytes < f
    → scan f bytes j ≡ shifted k (scan f bytes i)
unfolding shifted
scan_shift zero k i j bytes e l = absurd (omega arith)
scan_shift (suc f) k i j [] e l =
    scan-empty f j ∙ ap keep_from e ∙ ap (shifted k) (sym (scan-empty f i))
scan_shift (suc f) k i j (b ∷ bytes) e l = elim (case b bytes) [
  | past p ↦
      scan-past f b bytes j p
      ∙ scan_shift f k (i + 1) (j + 1) bytes (omega arith) (omega arith)
      ∙ ap (shifted k) (sym (scan-past f b bytes i p))
  | cut p m s ↦
      scan-cut f b bytes j p m s
      ∙ ap keep_from e
      ∙ ap (shifted k) (sym (scan-cut f b bytes i p m s))
  | whole p m ↦
      scan-whole f b bytes j p m ∙ ap found e ∙ ap (shifted k) (sym (scan-whole f b bytes i p m))
  | other p s m ↦
      let n = far b bytes in
      let bounds = far_bounds b bytes m in
      let left = length-drop n (b ∷ bytes) in
      scan-other f b bytes j p s m
      ∙ scan_shift f k (i + n) (j + n) (drop n (b ∷ bytes)) (omega arith) (omega arith)
      ∙ ap (shifted k) (sym (scan-other f b bytes i p s m))
]

shifted-Same :
    (k : ℕ) (r : ScanResult) (bytes : List ℕ) (c : Core)
    → Same bytes (drop k bytes) (sync_turn (shifted k r) c) (sync_turn r c)
unfolding shifted sync_turn
shifted-Same k (keep_from n) bytes c = record {
  core = refl;
  events = refl;
  again = refl;
  left = sym (drop-drop k n bytes);
}
shifted-Same k (found n) bytes c = record {
  core = refl;
  events = refl;
  again = refl;
  left = sym (drop-drop k n bytes);
}

kept_bound : (k n : ℕ) (r : ScanResult) → Within 0 n r → r ≡ keep_from k → k ≤ n
kept_bound k n (keep_from j) w e = grind arith
kept_bound k n (found j) w e = cc

module _ (k : ℕ) (bytes more : List ℕ) (c : Core)
    (e : scan (suc (length bytes)) bytes 0 ≡ keep_from k) where
  kept_within : k ≤ length bytes
  kept_within = omega (
    arith,
    kept_bound k (0 + length bytes) (scan (suc (length bytes)) bytes 0)
        (scan-Within (suc (length bytes)) bytes 0 (omega arith)) e,
  )

  length-rest : length (drop k bytes ++ more) ≤ length (bytes ++ more)
  length-rest =
      omega
        (arith, length-append (drop k bytes) more, length-append bytes more, length-drop k bytes)

  kept_scan :
      scan (suc (length (bytes ++ more))) (bytes ++ more) 0
      ≡ shifted k (scan (suc (length (drop k bytes ++ more))) (drop k bytes ++ more) 0)
  kept_scan =
      let size : ℕ = suc (length (bytes ++ more)) in
      let rest : List ℕ = drop k bytes ++ more in
      let none_past : k - 0 ≡ k = omega arith in
      scan_resume (suc (length bytes)) size size bytes more 0 (omega arith) (omega arith)
        (omega arith)
      ∙ ap (resumed size more bytes 0) e
      ∙ ap (λ (j : ℕ). scan size (drop j bytes ++ more) k) none_past
      ∙ scan_fuel size (suc (length rest)) rest k (omega (arith, length-rest)) (omega arith)
      ∙ scan_shift (suc (length rest)) k 0 k rest (omega arith) (omega arith)

  -- The search that waited goes on from what it kept.
  kept-Same :
      Same
        (bytes ++ more)
        (drop k bytes ++ more)
        (sync_at (bytes ++ more) c)
        (sync_at (drop k bytes ++ more) c)
  kept-Same =
      let rest : List ℕ = drop k bytes ++ more in
      rw kept_scan (
        rw (← drop-append_le k bytes more kept_within) (
          shifted-Same k (scan (suc (length (drop k (bytes ++ more)))) (drop k (bytes ++ more)) 0)
            (bytes ++ more) c))

-- A turn that waited is made again with more bytes.
abbrev pub Resumes : List ℕ → List ℕ → Core → Turn → Type 0
Resumes bytes more c t =
    Same (bytes ++ more) (drop t.consumed bytes ++ more) (turn (bytes ++ more) c)
      (turn (drop t.consumed bytes ++ more) t.core)
    × (t.events ≡ [])

wait-Resumes : (bytes more : List ℕ) (c : Core) → Resumes bytes more c (wait c 0)
wait-Resumes bytes more c = (record { core = refl; events = refl; again = refl; left = refl }, refl)

sync-Resumes :
    (r : ScanResult) (bytes more : List ℕ) (c : Core)
    → c.state ≡ State.sync
    → scan (suc (length bytes)) bytes 0 ≡ r
    → (sync_turn r c).again ≡ false
    → Resumes bytes more c (sync_turn r c)
unfolding sync_turn turn_at
sync-Resumes (keep_from k) bytes more c s e g = (
  subst
      (λ (st : State).
        Same (bytes ++ more) (drop k bytes ++ more) (turn_at st (bytes ++ more) c)
          (turn_at st (drop k bytes ++ more) c))
      (sym s) (kept-Same k bytes more c e),
  refl,
)
sync-Resumes (found k) bytes more c s e g = absurd (false≢true (sym g))

pub turn_at-Resumes :
    (s : State) (bytes more : List ℕ) (c : Core)
    → c.state ≡ s
    → (turn_at s bytes c).again ≡ false
    → Resumes bytes more c (turn_at s bytes c)
unfolding turn_at
turn_at-Resumes State.sync bytes more c s e =
    sync-Resumes (scan (suc (length bytes)) bytes 0) bytes more c s refl e
turn_at-Resumes State.header bytes more c s e = elim (dec_le packet_header_size (length bytes)) [
  | yes l ↦ absurd (header_goes_on bytes c l e)
  | no l ↦ rw (header-wait bytes c (omega arith)) (wait-Resumes bytes more c)
]
turn_at-Resumes State.payload bytes more c s e =
    elim (dec_le (packet_header_size + c.candidate.length) (length bytes)) [
      | yes l ↦ absurd (payload_goes_on bytes c l e)
      | no l ↦ rw (payload_wait bytes c (omega arith)) (wait-Resumes bytes more c)
    ]
turn_at-Resumes State.verify bytes more c s e = absurd (verify_goes_on bytes c e)
