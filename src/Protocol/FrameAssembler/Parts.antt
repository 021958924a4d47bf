-- ===== src/Protocol/FrameAssembler/Parts.antt =====
-- shared/protocol/frame_assembler.cpp: rectangles and ends against the contract.
use espview.Base.{
  ℕ, ◌+◌, ◌≤◌, ◌<◌, ◌≡◌, refl, arith, Bool, true, false, not, ◌&&◌, ◌||◌, List, [], Option, none,
  some, leb, ltb, ◌-◌, ◌==◌, length, ==_refl, drop, length-drop,
}
use espview.Base.Word.{u16, u32}
use espview.Protocol.Wire.{max_message_payload}
use espview.Protocol.FrameAssembler.{
  FrameAssembler, FrameState, FrameBeginInfo, RectInfo, CommittedFrame, FrameDiscardReason, on_rect,
  on_commit, frame_full, frame_partial, rgb565, pixel_bytes, max_frame_rect_count, begin_turn,
  rect_turn, end_turn, rect_fields, rect_fits, rect_ok, add_rect, end_refusal, committed, commit,
}
use espview.Protocol.FrameAssembler.Contract.{
  Open, sound_begin, sound_rect, sound_commit, observe, open_in, IsBounded,
}
use espview.Protocol.FrameAssembler.Opening.{
  Conforms, discard_to-Conforms, ghost_at, observe_all-one, open_frame-Conforms, same,
  silent-Conforms, supersede-Conforms,
}

pub silent_at :
    (s : FrameState) (a : FrameAssembler)
    → a.state ≡ s
    → IsBounded a
    → Conforms (ghost_at s a) (a, []) same
silent_at s a e v = rw (← e) (silent-Conforms a v)

pub begin_turn-Conforms :
    (ok : Bool) (s : FrameState) (b : FrameBeginInfo) (a : FrameAssembler)
    → (ok ≡ true → sound_begin b ≡ true)
    → a.state ≡ s
    → IsBounded a
    → Conforms (ghost_at s a) (begin_turn ok s b a) same
unfolding begin_turn
begin_turn-Conforms true FrameState.in_frame b a sound e v =
    supersede-Conforms b a (open_in FrameState.in_frame a) (sound refl) v
begin_turn-Conforms true FrameState.idle b a sound e v = open_frame-Conforms b a (sound refl)
begin_turn-Conforms true FrameState.discard_frame b a sound e v =
    open_frame-Conforms b a (sound refl)
begin_turn-Conforms false FrameState.discard_frame b a sound e v =
    silent_at FrameState.discard_frame a e v
begin_turn-Conforms false FrameState.in_frame b a sound e v =
    discard_to-Conforms FrameDiscardReason.invalid_begin a (open_in FrameState.in_frame a) v
begin_turn-Conforms false FrameState.idle b a sound e v =
    discard_to-Conforms FrameDiscardReason.invalid_begin a none v

-- What the checks of a rectangle say.
pub record RectChecked (p : List ℕ) (a : FrameAssembler) : Type 0 where
  pub sound : sound_rect a.begin (rect_fields p) (drop 8 p) ≡ true
  pub size : length (drop 8 p) ≡ pixel_bytes a.begin (rect_fields p)
  pub count : a.rect_count < max_frame_rect_count
  pub total : a.byte_count + pixel_bytes a.begin (rect_fields p) ≤ 0xFFFFFFFF

-- The tests of `rect_ok` over plain numbers.
module _ (size n count bytes : ℕ) (fits : Bool) where
  abbrev tests : Bool
  tests =
      leb 8 size
      && leb size max_message_payload
      && fits
      && size == 8 + n
      && ltb count max_frame_rect_count
      && leb (bytes + n) 0xFFFFFFFF

  numbers :
      (left : ℕ)
      → left ≡ size - 8
      → tests ≡ true
      → (left ≡ n) × (count < max_frame_rect_count) × (bytes + n ≤ 0xFFFFFFFF)
  numbers left l e = ground arith

  fits_of : tests ≡ true → fits ≡ true
  fits_of e = ground arith

checked-numbers :
    (p : List ℕ) (a : FrameAssembler)
    → rect_ok p a ≡ true
    → (length (drop 8 p) ≡ pixel_bytes a.begin (rect_fields p))
      × (a.rect_count < max_frame_rect_count)
      × (a.byte_count + pixel_bytes a.begin (rect_fields p) ≤ 0xFFFFFFFF)
unfolding rect_ok
checked-numbers p a e =
    let size = length-drop 8 p in
    let n : ℕ = pixel_bytes a.begin (rect_fields p) in
    numbers (length p) n a.rect_count a.byte_count (rect_fits a.begin (rect_fields p))
      (length (drop 8 p)) size e

checked-fits :
    (p : List ℕ) (a : FrameAssembler)
    → rect_ok p a ≡ true
    → rect_fits a.begin (rect_fields p) ≡ true
unfolding rect_ok
checked-fits p a e =
    fits_of (length p) (pixel_bytes a.begin (rect_fields p)) a.rect_count a.byte_count
      (rect_fits a.begin (rect_fields p)) e

sound_of :
    (b : FrameBeginInfo) (r : RectInfo) (pixels : List ℕ)
    → b.pixel_format ≡ rgb565
    → rect_fits b r ≡ true
    → length pixels ≡ pixel_bytes b r
    → sound_rect b r pixels ≡ true
unfolding rect_fits sound_rect
sound_of b r pixels f e l = ground arith

checked_sound :
    (p : List ℕ) (a : FrameAssembler)
    → IsBounded a
    → rect_ok p a ≡ true
    → sound_rect a.begin (rect_fields p) (drop 8 p) ≡ true
checked_sound p a v e =
    sound_of a.begin (rect_fields p) (drop 8 p) v.format (checked-fits p a e)
      (checked-numbers p a e).0

pub rect_ok-RectChecked :
    (p : List ℕ) (a : FrameAssembler) → IsBounded a → rect_ok p a ≡ true → RectChecked p a
rect_ok-RectChecked p a v e = record {
  sound = checked_sound p a v e;
  size = (checked-numbers p a e).0;
  count = (checked-numbers p a e).1;
  total = (checked-numbers p a e).2;
}

observe-rect :
    (r : RectInfo) (pixels : List ℕ) (o : Open) (base : Bool)
    → sound_rect o.begin r pixels ≡ true
    → observe (on_rect r pixels) (some o) base
      ≡ some (record {
        frame = some (record o { rects = o.rects + 1; bytes = o.bytes + length pixels });
        base = base;
      })
unfolding observe
observe-rect r pixels o base e = rw e refl

add_rect-Conforms :
    (p : List ℕ) (a : FrameAssembler)
    → a.state ≡ FrameState.in_frame
    → IsBounded a
    → RectChecked p a
    → Conforms (ghost_at FrameState.in_frame a) (add_rect (rect_fields p) (drop 8 p) a) same
unfolding add_rect
add_rect-Conforms p a e v k = record {
  before = record {
    frame = some (record {
      begin = a.begin;
      rects = a.rect_count + 1;
      bytes = a.byte_count + length (drop 8 p);
    });
    base = a.has_committed_base;
  };
  lets = observe_all-one (on_rect (rect_fields p) (drop 8 p)) (ghost_at FrameState.in_frame a) _ (
      observe-rect (rect_fields p) (drop 8 p)
        (record { begin = a.begin; rects = a.rect_count; bytes = a.byte_count })
        a.has_committed_base k.sound);
  after = rw (e, k.size) refl;
  bounded = record {
    format = v.format;
    type = v.type;
    rects = omega (arith, k.count);
    bytes = k.total;
  };
}

pub rect_turn-Conforms :
    (ok : Bool) (s : FrameState) (p : List ℕ) (a : FrameAssembler)
    → (ok ≡ true → RectChecked p a)
    → a.state ≡ s
    → IsBounded a
    → Conforms (ghost_at s a) (rect_turn ok s p a) same
unfolding rect_turn
rect_turn-Conforms true FrameState.in_frame p a k e v = add_rect-Conforms p a e v (k refl)
rect_turn-Conforms false FrameState.in_frame p a k e v =
    discard_to-Conforms FrameDiscardReason.invalid_rect a (open_in FrameState.in_frame a) v
rect_turn-Conforms true FrameState.idle p a k e v = silent_at FrameState.idle a e v
rect_turn-Conforms false FrameState.idle p a k e v = silent_at FrameState.idle a e v
rect_turn-Conforms true FrameState.discard_frame p a k e v =
    silent_at FrameState.discard_frame a e v
rect_turn-Conforms false FrameState.discard_frame p a k e v =
    silent_at FrameState.discard_frame a e v

unrefused-base :
    (p : List ℕ) (a : FrameAssembler)
    → end_refusal p a ≡ none
    → (a.begin.frame_type == frame_partial && not a.has_committed_base) ≡ false
unfolding end_refusal
unrefused-base p a e = ground arith

based :
    (type : ℕ) (base : Bool)
    → (type == frame_full || type == frame_partial) ≡ true
    → (type == frame_partial && not base) ≡ false
    → (base || type == frame_full) ≡ true
based type base t e = ground arith

-- An end that is not refused.
pub committed_sound :
    (p : List ℕ) (a : FrameAssembler)
    → IsBounded a
    → end_refusal p a ≡ none
    → sound_commit
        (record { begin = a.begin; rects = a.rect_count; bytes = a.byte_count })
        a.has_committed_base
        (committed a)
      ≡ true
unfolding sound_commit committed
committed_sound p a v e =
    let rects : u16 a.rect_count ≡ a.rect_count = omega (arith, v.rects) in
    let bytes : u32 a.byte_count ≡ a.byte_count = omega (arith, v.bytes) in
    rw
      (
        rects,
        bytes,
        ==_refl a.begin.frame_id,
        ==_refl a.begin.frame_type,
        ==_refl a.begin.pixel_format,
        ==_refl a.begin.width,
        ==_refl a.begin.height,
        ==_refl a.rect_count,
        ==_refl a.byte_count,
      )
      (based a.begin.frame_type a.has_committed_base v.type (unrefused-base p a e))

observe-commit :
    (f : CommittedFrame) (o : Open) (base : Bool)
    → sound_commit o base f ≡ true
    → observe (on_commit f) (some o) base ≡ some (record { frame = none; base = true })
unfolding observe
observe-commit f o base e = rw e refl

commit-Conforms :
    (a : FrameAssembler)
    → IsBounded a
    → sound_commit
        (record { begin = a.begin; rects = a.rect_count; bytes = a.byte_count })
        a.has_committed_base
        (committed a)
      ≡ true
    → Conforms (ghost_at FrameState.in_frame a) (commit a) same
unfolding commit
commit-Conforms a v e = record {
  before = record { frame = none; base = true };
  lets = observe_all-one (on_commit (committed a)) (ghost_at FrameState.in_frame a) _ (
      observe-commit (committed a)
        (record { begin = a.begin; rects = a.rect_count; bytes = a.byte_count })
        a.has_committed_base e);
  after = refl;
  bounded = record { format = refl; type = refl; rects = omega arith; bytes = omega arith };
}

pub end_turn-Conforms :
    (refusal : Option FrameDiscardReason) (s : FrameState) (a : FrameAssembler)
    → (refusal ≡ none
        → sound_commit
            (record { begin = a.begin; rects = a.rect_count; bytes = a.byte_count })
            a.has_committed_base
            (committed a)
          ≡ true)
    → a.state ≡ s
    → IsBounded a
    → Conforms (ghost_at s a) (end_turn refusal s a) same
unfolding end_turn
end_turn-Conforms (some r) FrameState.in_frame a k e v =
    discard_to-Conforms r a (open_in FrameState.in_frame a) v
end_turn-Conforms none FrameState.in_frame a k e v = commit-Conforms a v (k refl)
end_turn-Conforms none FrameState.idle a k e v = silent_at FrameState.idle a e v
end_turn-Conforms (some r) FrameState.idle a k e v = silent_at FrameState.idle a e v
end_turn-Conforms none FrameState.discard_frame a k e v = silent_at FrameState.discard_frame a e v
end_turn-Conforms (some r) FrameState.discard_frame a k e v =
    silent_at FrameState.discard_frame a e v
