-- ===== src/Protocol/FrameAssembler/Built.antt =====
-- shared/protocol/frame_assembler.cpp and message.cpp: a frame that the builders made, and what the
-- frame assembler makes of it.
use espview.Base.{
  ℕ, ◌+◌, ◌^◌, ◌≤◌, ◌<◌, ◌≡◌, refl, sym, ap, ◌∙◌, ◌⊎◌, inl, inr, arith, Bool, true, false, not,
  ◌&&◌, List, [], ◌∷◌, ◌++◌, All, Option, none, some, length, !=_refl, ◌==◌,
}
use mathlib.Core.Bool.{false≢true}
use mathlib.Core.Option.{some-injective}
use espview.Base.Word.{u16, u32}
use espview.Protocol.Wire.{FrameType, frame_type_code, PixelFormat}
use espview.Protocol.MessageType
use espview.Protocol.ByteOrder.{write_u16_le, write_u32_le}
use espview.Protocol.ByteOrder.RoundTrip.{read_u16_le-write_u16_le, read_u32_le-write_u32_le}
use espview.Protocol.Message.{Message}
use espview.Protocol.Message.Builders.{make_frame_begin, make_frame_rect, make_frame_end}
use espview.Protocol.FrameAssembler.{
  FrameAssembler, FrameState, FrameBeginInfo, RectInfo, CommittedFrame, FrameDiscardReason,
  FrameEvent, on_begin, on_rect, on_commit, Stepped, Input, message, step, steps, frame_partial,
  rgb565, max_frame_rect_count, begin_ok, begin_fields, open_frame, begin_turn, handle_begin,
  end_refusal, committed, commit, end_turn, handle_end, on_message,
}
use espview.Protocol.FrameAssembler.BuiltParts.{
  IsRect, begin_accepted, begin_built, begin_bytes, begin_read, info, rect_built, rect_bytes,
  rect_step,
}

abbrev Rects : Type 0
Rects = List (RectInfo × List ℕ)

abbrev pub total_bytes : Rects → ℕ
total_bytes [] = 0
total_bytes (q ∷ qs) = length q.1 + total_bytes qs

abbrev pub rect_events : Rects → List FrameEvent
rect_events [] = []
rect_events (q ∷ qs) = on_rect q.0 q.1 ∷ rect_events qs

-- The builder's messages for the rectangles, in order.
pub data BuiltRects : Rects → List Input → Type 0 where
  no_more : BuiltRects [] []
  built :
      {qs : Rects} {is : List Input} (r : RectInfo) (pixels : List ℕ) (m : Message)
      → make_frame_rect r.x r.y r.w r.h pixels ≡ some m
      → BuiltRects qs is
      → BuiltRects ((r, pixels) ∷ qs) (message m ∷ is)

-- The frame was committed: the reports, and where the assembler stands.
pub record Commits (events : List FrameEvent) (s : Stepped) : Type 0 where
  pub reports : s.1 ≡ events
  pub state : s.0.state ≡ FrameState.idle
  pub base : s.0.has_committed_base ≡ true

-- The reports of a step, put before those of the rest.
Commits-before :
    (e : FrameEvent) (events : List FrameEvent) (i : Input) (is : List Input)
    (a a' : FrameAssembler)
    → step i a ≡ (a', e ∷ [])
    → Commits events (steps is a')
    → Commits (e ∷ events) (steps (i ∷ is) a)
unfolding steps
Commits-before e events i is a a' s c = rw s (record {
  reports = ap (λ (es : List FrameEvent). e ∷ es) c.reports;
  state = c.state;
  base = c.base;
})

-- The frame as it is committed.
abbrev pub frame : FrameBeginInfo → ℕ → ℕ → CommittedFrame
frame b n t = record {
  frame_id = b.frame_id;
  frame_type = b.frame_type;
  pixel_format = b.pixel_format;
  width = b.width;
  height = b.height;
  rect_count = n;
  byte_count = t;
}

module _ (b : FrameBeginInfo) (hi : b.frame_id < 2 ^ 16) (f : b.pixel_format ≡ rgb565) where
  end_bytes : ℕ → ℕ → List ℕ
  end_bytes n t = write_u16_le b.frame_id ++ (write_u16_le n ++ (write_u32_le t ++ (0 ∷ [])))

  end_accepted :
      (n t : ℕ) (a : FrameAssembler)
      → n ≤ max_frame_rect_count
      → t ≤ 0xFFFFFFFF
      → a.begin ≡ b
      → a.rect_count ≡ n
      → a.byte_count ≡ t
      → (b.frame_type == frame_partial && not a.has_committed_base) ≡ false
      → end_refusal (end_bytes n t) a ≡ none
  unfolding end_refusal end_bytes write_u16_le write_u32_le
  end_accepted n t a hn ht e en et p =
      rw
        (
          e,
          en,
          et,
          read_u16_le-write_u16_le b.frame_id (write_u16_le n ++ (write_u32_le t ++ (0 ∷ []))) hi,
          read_u16_le-write_u16_le n (write_u32_le t ++ (0 ∷ [])) (omega arith),
          read_u32_le-write_u32_le t (0 ∷ []) (omega arith),
          !=_refl b.frame_id,
          !=_refl n,
          !=_refl t,
          p,
        )
        refl

  committed_frame :
      (n t : ℕ) (a : FrameAssembler)
      → n ≤ max_frame_rect_count
      → t ≤ 0xFFFFFFFF
      → a.begin ≡ b
      → a.rect_count ≡ n
      → a.byte_count ≡ t
      → committed a ≡ frame b n t
  unfolding committed
  committed_frame n t a hn ht e en et =
      let rects : u16 n ≡ n = omega arith in
      let bytes : u32 t ≡ t = omega arith in rw (committed, e, en, et, rects, bytes) refl

  make_frame_end-Commits :
      (n t : ℕ) (a : FrameAssembler)
      → n ≤ max_frame_rect_count
      → t ≤ 0xFFFFFFFF
      → a.state ≡ FrameState.in_frame
      → a.begin ≡ b
      → a.rect_count ≡ n
      → a.byte_count ≡ t
      → (b.frame_type == frame_partial && not a.has_committed_base) ≡ false
      → Commits
          (on_commit (frame b n t) ∷ [])
          (steps (message (make_frame_end b.frame_id n t false) ∷ []) a)
  unfolding steps step on_message handle_end make_frame_end end_bytes
  make_frame_end-Commits n t a hn ht s e en et p =
      let done : end_turn (end_refusal (end_bytes n t) a) a.state a ≡ commit a =
        ap (λ (o : Option FrameDiscardReason). end_turn o a.state a)
          (end_accepted n t a hn ht e en et p)
        ∙ ap (λ (st : FrameState). end_turn none st a) s in
      rw done (record {
        reports =
            ap (λ (c : CommittedFrame). on_commit c ∷ []) (committed_frame n t a hn ht e en et);
        state = refl;
        base = refl;
      })

  -- The rectangles and the end, to an assembler in the frame.
  rects-Commits :
      (qs : Rects) (is : List Input) (n t : ℕ) (a : FrameAssembler)
      → BuiltRects qs is
      → All (λ (q : RectInfo × List ℕ). IsRect b q.0 q.1) qs
      → n ≤ max_frame_rect_count
      → t ≤ 0xFFFFFFFF
      → a.state ≡ FrameState.in_frame
      → a.begin ≡ b
      → a.rect_count + length qs ≡ n
      → a.byte_count + total_bytes qs ≡ t
      → (b.frame_type == frame_partial && not a.has_committed_base) ≡ false
      → Commits
          (rect_events qs ++ (on_commit (frame b n t) ∷ []))
          (steps (is ++ (message (make_frame_end b.frame_id n t false) ∷ [])) a)
  rects-Commits _ _ n t a no_more v hn ht s e en et p =
      make_frame_end-Commits n t a hn ht s e (omega arith) (omega arith) p
  rects-Commits _ _ n t a (built {qs = qs} {is = is} r pixels m bm rest) (v, vs) hn ht s e en et p =
      let same : record {
        type = MessageType.frame_rect;
        flags = 0;
        payload = rect_bytes b r pixels v;
      }
          ≡ m =
        some-injective _ m (sym (rect_built b r pixels v) ∙ bm) in
      let a' : FrameAssembler = record a {
        rect_count = a.rect_count + 1;
        byte_count = a.byte_count + length pixels;
      } in
      let taken_rect = rect_step b r pixels v a s e f (omega arith) (omega arith) in
      Commits-before (on_rect r pixels) (rect_events qs ++ (on_commit (frame b n t) ∷ []))
        (message m) (is ++ (message (make_frame_end b.frame_id n t false) ∷ [])) a a'
        (ap (λ (k : Message). step (message k) a) (sym same) ∙ taken_rect)
        (rects-Commits qs is n t a' rest vs hn ht s e (omega arith) (omega arith) p)

geometry :
    (frame_id : ℕ) (type : FrameType) (width height byte_hint : ℕ) (m : Message)
    → make_frame_begin frame_id type PixelFormat.rgb565 width height byte_hint ≡ some m
    → ((1 ≤ width) × (width ≤ 4096)) × ((1 ≤ height) × (height ≤ 4096))
unfolding make_frame_begin
geometry frame_id type width height byte_hint m e = ground arith

-- A begin that is accepted in a state without an open frame.
opened :
    (s : FrameState) (b : FrameBeginInfo) (a : FrameAssembler)
    → (s ≡ FrameState.in_frame → ⊥)
    → begin_turn true s b a ≡ (
      record a { state = FrameState.in_frame; begin = b; rect_count = 0; byte_count = 0 },
      on_begin b ∷ [],
    )
unfolding begin_turn open_frame
opened FrameState.idle b a n = refl
opened FrameState.discard_frame b a n = refl
opened FrameState.in_frame b a n = absurd (n refl)

based_type :
    (type : FrameType) (base : Bool)
    → (type ≡ FrameType.full) ⊎ (base ≡ true)
    → (frame_type_code type == frame_partial && not base) ≡ false
based_type FrameType.full base h = refl
based_type FrameType.partial true h = refl
based_type FrameType.partial false (inl e) = cc
based_type FrameType.partial false (inr e) = absurd (false≢true e)

-- What the builders make of a frame, its rectangles inside it and within the counts of the wire, is
-- committed by an assembler that has no frame open, if the frame is full or one was committed: it
-- reports the begin, each rectangle with its pixels, and the commit with the true counts, and nothing
-- else.
pub built-Commits :
    (frame_id : ℕ) (type : FrameType) (width height byte_hint : ℕ) (qs : Rects) (m : Message)
    (is : List Input) (a : FrameAssembler)
    → frame_id < 2 ^ 16
    → byte_hint < 2 ^ 32
    → make_frame_begin frame_id type PixelFormat.rgb565 width height byte_hint ≡ some m
    → BuiltRects qs is
    → All (λ (q : RectInfo × List ℕ). IsRect (info frame_id type width height byte_hint) q.0 q.1) qs
    → length qs ≤ max_frame_rect_count
    → total_bytes qs ≤ 0xFFFFFFFF
    → (a.state ≡ FrameState.in_frame → ⊥)
    → (type ≡ FrameType.full) ⊎ (a.has_committed_base ≡ true)
    → let b = info frame_id type width height byte_hint in
      let end = make_frame_end frame_id (length qs) (total_bytes qs) false in
      Commits
        (on_begin b ∷ (rect_events qs ++ (on_commit (frame b (length qs) (total_bytes qs)) ∷ [])))
        (steps (message m ∷ (is ++ (message end ∷ []))) a)
unfolding step on_message handle_begin
built-Commits frame_id type width height byte_hint qs m is a hi hb e bs v hn ht n p =
    let b : FrameBeginInfo = info frame_id type width height byte_hint in
    let (hw, hh) = geometry frame_id type width height byte_hint m e in
    let bytes : List ℕ = begin_bytes frame_id type width height byte_hint hi hw hh hb in
    let same : record { type = MessageType.frame_begin; flags = 0; payload = bytes } ≡ m =
      some-injective _ m (sym (begin_built frame_id type width height byte_hint hi hw hh hb) ∙ e) in
    let started : FrameAssembler = record a {
      state = FrameState.in_frame;
      begin = b;
      rect_count = 0;
      byte_count = 0;
    } in
    let accepted : begin_turn (begin_ok bytes) a.state (begin_fields bytes) a
        ≡ (started, on_begin b ∷ []) =
      ap (λ (ok : Bool). begin_turn ok a.state (begin_fields bytes) a)
        (begin_accepted frame_id type width height byte_hint hi hw hh hb)
      ∙ ap (λ (g : FrameBeginInfo). begin_turn true a.state g a)
          (begin_read frame_id type width height byte_hint hi hw hh hb)
      ∙ opened a.state b a n in
    Commits-before (on_begin b)
      (rect_events qs ++ (on_commit (frame b (length qs) (total_bytes qs)) ∷ [])) (message m)
      (is ++ (message (make_frame_end frame_id (length qs) (total_bytes qs) false) ∷ [])) a started
      (ap (λ (k : Message). step (message k) a) (sym same) ∙ accepted)
      (rects-Commits b hi refl qs is (length qs) (total_bytes qs) started bs v hn ht refl refl
        (omega arith) (omega arith) (based_type type a.has_committed_base p))
