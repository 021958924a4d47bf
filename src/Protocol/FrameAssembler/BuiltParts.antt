-- ===== src/Protocol/FrameAssembler/BuiltParts.antt =====
-- shared/protocol/frame_assembler.cpp and message.cpp: what the assembler reads of a built begin and of a
-- built rectangle.
use espview.Base.{
  ℕ, ◌+◌, ◌*◌, ◌^◌, ◌≤◌, ◌<◌, ◌≡◌, refl, ap, ◌∙◌, arith, Bool, true, ◌&&◌, ◌||◌, List, [], ◌∷◌,
  ◌++◌, some, length, drop, not_lt→ltb, !=_refl, ◌==◌, ltb, leb,
}
use espview.Protocol.Wire.{FrameType, frame_type_code, PixelFormat, max_message_payload}
use espview.Protocol.MessageType
use espview.Protocol.ByteOrder.{write_u16_le, write_u32_le}
use espview.Protocol.ByteOrder.RoundTrip.{read_u16_le-write_u16_le, read_u32_le-write_u32_le}
use espview.Protocol.Message.Builders.{make_frame_begin, make_frame_rect}
use espview.Protocol.FrameAssembler.{
  FrameAssembler, FrameState, FrameBeginInfo, RectInfo, on_rect, Stepped, message, step, frame_full,
  frame_partial, rgb565, max_frame_rect_count, begin_ok, begin_fields, rect_ok, rect_fits,
  rect_fields, add_rect, rect_turn, handle_rect, on_message, pixel_bytes,
}

-- What a sender gives for a frame.
abbrev pub info : ℕ → FrameType → ℕ → ℕ → ℕ → FrameBeginInfo
info frame_id type width height byte_hint = record {
  frame_id = frame_id;
  frame_type = frame_type_code type;
  pixel_format = rgb565;
  width = width;
  height = height;
  byte_hint = byte_hint;
}

module _ (frame_id : ℕ) (type : FrameType) (width height byte_hint : ℕ) (hi : frame_id < 2 ^ 16)
    (hw : (1 ≤ width) × (width ≤ 4096)) (hh : (1 ≤ height) × (height ≤ 4096))
    (hb : byte_hint < 2 ^ 32) where
  pub begin_bytes : List ℕ
  begin_bytes =
      write_u16_le frame_id
      ++ (frame_type_code type
          ∷ 0
          ∷ (write_u16_le width ++ (write_u16_le height ++ write_u32_le byte_hint)))

  pub begin_built :
      make_frame_begin frame_id type PixelFormat.rgb565 width height byte_hint
      ≡ some (record { type = MessageType.frame_begin; flags = 0; payload = begin_bytes })
  unfolding make_frame_begin begin_bytes
  begin_built =
      rw
        (
          not_lt→ltb width 1 hw.0,
          not_lt→ltb 4096 width hw.1,
          not_lt→ltb height 1 hh.0,
          not_lt→ltb 4096 height hh.1,
        )
        refl

  type_known : (frame_type_code type == frame_full || frame_type_code type == frame_partial) ≡ true
  type_known =
      elim type
        as (λ t. (frame_type_code t == frame_full || frame_type_code t == frame_partial) ≡ true) [
          | FrameType.full ↦ refl
          | FrameType.partial ↦ refl
        ]

  pub begin_read : begin_fields begin_bytes ≡ info frame_id type width height byte_hint
  unfolding begin_fields begin_bytes write_u16_le write_u32_le
  begin_read =
      rw
        (
          read_u16_le-write_u16_le frame_id
              (frame_type_code type
                ∷ 0
                ∷ (write_u16_le width ++ (write_u16_le height ++ write_u32_le byte_hint)))
              hi,
          read_u16_le-write_u16_le width (write_u16_le height ++ write_u32_le byte_hint)
              (omega arith),
          read_u16_le-write_u16_le height (write_u32_le byte_hint) (omega arith),
          read_u32_le-write_u32_le byte_hint [] hb,
        )
        refl

  pub begin_accepted : begin_ok begin_bytes ≡ true
  unfolding begin_ok begin_bytes write_u16_le write_u32_le
  begin_accepted =
      rw
        (
          type_known,
          read_u16_le-write_u16_le width (write_u16_le height ++ write_u32_le byte_hint)
              (omega arith),
          read_u16_le-write_u16_le height (write_u32_le byte_hint) (omega arith),
        )
        (ground arith)

-- The tests of a rectangle over plain numbers.
tests_pass :
    (size n count bytes : ℕ) (fits : Bool)
    → fits ≡ true
    → size ≡ 8 + n
    → size ≤ max_message_payload
    → count < max_frame_rect_count
    → bytes + n ≤ 0xFFFFFFFF
    → (leb 8 size
        && leb size max_message_payload
        && fits
        && size == 8 + n
        && ltb count max_frame_rect_count
        && leb (bytes + n) 0xFFFFFFFF)
      ≡ true
tests_pass size n count bytes fits f e k c t = ground arith

-- A rectangle with its pixels, as a sender gives it, that lies in the frame.
pub record IsRect (b : FrameBeginInfo) (r : RectInfo) (pixels : List ℕ) : Type 0 where
  pub x : r.x < 2 ^ 16
  pub y : r.y < 2 ^ 16
  pub w : r.w < 2 ^ 16
  pub h : r.h < 2 ^ 16
  pub wide : 1 ≤ r.w
  pub high : 1 ≤ r.h
  pub right : r.x + r.w ≤ b.width
  pub bottom : r.y + r.h ≤ b.height
  pub whole : length pixels ≡ r.w * r.h * 2
  pub size : 8 + length pixels ≤ max_message_payload

module _ (b : FrameBeginInfo) (r : RectInfo) (pixels : List ℕ) (v : IsRect b r pixels) where
  pub rect_bytes : List ℕ
  rect_bytes =
      write_u16_le r.x ++ (write_u16_le r.y ++ (write_u16_le r.w ++ (write_u16_le r.h ++ pixels)))

  pub rect_built :
      make_frame_rect r.x r.y r.w r.h pixels
      ≡ some (record { type = MessageType.frame_rect; flags = 0; payload = rect_bytes })
  unfolding make_frame_rect rect_bytes
  rect_built =
      rw (not_lt→ltb r.w 1 v.wide, not_lt→ltb r.h 1 v.high, v.whole, !=_refl (r.w * r.h * 2)) refl

  rect_read : rect_fields rect_bytes ≡ r
  unfolding rect_fields rect_bytes write_u16_le
  rect_read =
      rw
        (
          read_u16_le-write_u16_le r.x
              (write_u16_le r.y ++ (write_u16_le r.w ++ (write_u16_le r.h ++ pixels))) v.x,
          read_u16_le-write_u16_le r.y (write_u16_le r.w ++ (write_u16_le r.h ++ pixels)) v.y,
          read_u16_le-write_u16_le r.w (write_u16_le r.h ++ pixels) v.w,
          read_u16_le-write_u16_le r.h pixels v.h,
        )
        refl

  length-rect_bytes : length rect_bytes ≡ 8 + length pixels
  unfolding rect_bytes write_u16_le
  length-rect_bytes = omega arith

  rect_pixels : drop 8 rect_bytes ≡ pixels
  unfolding rect_bytes write_u16_le
  rect_pixels = refl

  rect_fits_lem : b.pixel_format ≡ rgb565 → rect_fits b r ≡ true
  unfolding rect_fits
  rect_fits_lem f = ground (arith, v.wide, v.high, v.right, v.bottom)

  sized : b.pixel_format ≡ rgb565 → pixel_bytes b r ≡ length pixels
  sized f = rw (f, v.whole) refl

  rect_accepted :
      (a : FrameAssembler)
      → a.begin ≡ b
      → b.pixel_format ≡ rgb565
      → a.rect_count < max_frame_rect_count
      → a.byte_count + length pixels ≤ 0xFFFFFFFF
      → rect_ok rect_bytes a ≡ true
  unfolding rect_ok
  rect_accepted a e f c t =
      let inside : rect_fits a.begin (rect_fields rect_bytes) ≡ true =
        ap (rect_fits a.begin) rect_read
        ∙ ap (λ (g : FrameBeginInfo). rect_fits g r) e
        ∙ rect_fits_lem f in
      let n : pixel_bytes a.begin (rect_fields rect_bytes) ≡ length pixels =
        ap (pixel_bytes a.begin) rect_read
        ∙ ap (λ (g : FrameBeginInfo). pixel_bytes g r) e
        ∙ sized f in
      tests_pass (length rect_bytes) (pixel_bytes a.begin (rect_fields rect_bytes)) a.rect_count
        a.byte_count (rect_fits a.begin (rect_fields rect_bytes)) inside
        (omega (arith, length-rect_bytes)) (omega (arith, length-rect_bytes, v.size)) c
        (omega arith)

  taken :
      (a : FrameAssembler)
      → a.begin ≡ b
      → b.pixel_format ≡ rgb565
      → rect_turn true FrameState.in_frame rect_bytes a ≡ (
        record a { rect_count = a.rect_count + 1; byte_count = a.byte_count + length pixels },
        on_rect r pixels ∷ [],
      )
  unfolding rect_turn add_rect
  taken a e f =
      let n : pixel_bytes a.begin r ≡ length pixels =
        ap (λ (g : FrameBeginInfo). pixel_bytes g r) e ∙ sized f in
      ap (λ (q : RectInfo). add_rect q (drop 8 rect_bytes) a) rect_read
      ∙ ap (λ (ps : List ℕ). add_rect r ps a) rect_pixels
      ∙ ap
          (λ (k : ℕ).
            let s : Stepped = (
              record a { rect_count = a.rect_count + 1; byte_count = a.byte_count + k },
              on_rect r pixels ∷ [],
            ) in
            s)
          n

  -- The assembler takes the rectangle.
  pub rect_step :
      (a : FrameAssembler)
      → a.state ≡ FrameState.in_frame
      → a.begin ≡ b
      → b.pixel_format ≡ rgb565
      → a.rect_count < max_frame_rect_count
      → a.byte_count + length pixels ≤ 0xFFFFFFFF
      → step (message (record { type = MessageType.frame_rect; flags = 0; payload = rect_bytes })) a
        ≡ (
          record a { rect_count = a.rect_count + 1; byte_count = a.byte_count + length pixels },
          on_rect r pixels ∷ [],
        )
  unfolding step on_message handle_rect
  rect_step a s e f c t =
      ap (λ (ok : Bool). rect_turn ok a.state rect_bytes a) (rect_accepted a e f c t)
      ∙ ap (λ (st : FrameState). rect_turn true st rect_bytes a) s
      ∙ taken a e f
