-- ===== src/Protocol/Message/Preview.antt =====
-- shared/protocol/message.h and message.cpp: the PHYSICAL_PREVIEW message. The pixels are `none` for
-- the null pointer, and else the bytes that the pointer leads to.
use espview.Base.{
  ℕ, ◌^◌, ◌<◌, ◌≤◌, ◌≡◌, refl, arith, Bool, true, false, ◌||◌, List, ◌∷◌, ◌++◌, Option, none, some,
  ltb, ◌!=◌, if◌then◌else◌, length, take, drop, get_or, bit_and, not_lt→ltb, length-append,
  length-take,
}
use espview.Protocol.MessageType
use espview.Protocol.ByteOrder.{read_u16_le, write_u16_le}
use espview.Protocol.ByteOrder.RoundTrip.{read_u16_le-write_u16_le}
use espview.Protocol.Message.{Message, make_message}
use espview.Protocol.Message.Builders.{out_of_geometry}
use espview.Protocol.Message.Capabilities.{PhysicalPixelFormat, physical_pixel_format_code}

abbrev pub physical_preview_payload_size : ℕ
physical_preview_payload_size = 1032

abbrev pub physical_preview_pixel_bytes : ℕ
physical_preview_pixel_bytes = 1024

pub record PhysicalPreviewInfo : Type 0 where
  pub frame_id : ℕ
  pub width : ℕ
  pub height : ℕ
  pub pixel_format : PhysicalPixelFormat
  pub flags : ℕ

unfoldable pub preview_bytes : PhysicalPreviewInfo → List ℕ → List ℕ
preview_bytes i pixels =
    write_u16_le i.frame_id
    ++ (write_u16_le i.width
        ++ (write_u16_le i.height
            ++ (physical_pixel_format_code i.pixel_format
                ∷ i.flags
                ∷ take physical_preview_pixel_bytes pixels)))

-- A pixel format other than that of one bit.
abbrev not_mono : PhysicalPixelFormat → Bool
not_mono PhysicalPixelFormat.rgb565 = true
not_mono PhysicalPixelFormat.mono1 = false

unfoldable pub make_physical_preview : PhysicalPreviewInfo → Option (List ℕ) → Option Message
make_physical_preview i none = none
make_physical_preview i (some pixels) =
    if out_of_geometry i.width || out_of_geometry i.height
    then none
    else if not_mono i.pixel_format
    then none
    else if bit_and i.flags 0xFE != 0
    then none
    else some (make_message MessageType.physical_preview 0 (preview_bytes i pixels))

unfoldable pub parse_physical_preview : List ℕ → Option PhysicalPreviewInfo
parse_physical_preview payload =
    if ltb (length payload) physical_preview_payload_size
    then none
    else some (record {
      frame_id = read_u16_le payload;
      width = read_u16_le (drop 2 payload);
      height = read_u16_le (drop 4 payload);
      pixel_format = PhysicalPixelFormat.mono1;
      flags = get_or payload 7 0;
    })

geometry :
    (i : PhysicalPreviewInfo) (pixels : List ℕ) (m : Message)
    → make_physical_preview i (some pixels) ≡ some m
    → (i.width ≤ 4096) × (i.height ≤ 4096)
unfolding make_physical_preview
geometry i pixels m e = ground arith

format :
    (i : PhysicalPreviewInfo) (pixels : List ℕ) (m : Message)
    → make_physical_preview i (some pixels) ≡ some m
    → PhysicalPixelFormat.mono1 ≡ i.pixel_format
unfolding make_physical_preview
format i pixels m e = ground arith

made :
    (i : PhysicalPreviewInfo) (pixels : List ℕ) (m : Message)
    → make_physical_preview i (some pixels) ≡ some m
    → m.payload ≡ preview_bytes i pixels
unfolding make_physical_preview
made i pixels m e = ground arith

length_bytes :
    (i : PhysicalPreviewInfo) (pixels rest : List ℕ)
    → 1024 ≤ length pixels
    → 1032 ≤ length (preview_bytes i pixels ++ rest)
unfolding preview_bytes write_u16_le
length_bytes i pixels rest h =
    omega (arith, length-append (take 1024 pixels) rest, length-take 1024 pixels)

-- Of every message that `makePhysicalPreview` builds from 1024 bytes or more of pixels and a frame
-- number of 16 bits: the first 1024 bytes of the pixels stand behind 8 bytes of the payload, and,
-- whatever follows it, `parsePhysicalPreview` gives back the arguments.
pub parse_physical_preview-make_physical_preview :
    (i : PhysicalPreviewInfo) (pixels : List ℕ) (m : Message) (rest : List ℕ)
    → i.frame_id < 2 ^ 16
    → 1024 ≤ length pixels
    → make_physical_preview i (some pixels) ≡ some m
    → (drop 8 m.payload ≡ take 1024 pixels) × (parse_physical_preview (m.payload ++ rest) ≡ some i)
unfolding parse_physical_preview preview_bytes write_u16_le
parse_physical_preview-make_physical_preview i pixels m rest hi hp e =
    let (hw, hh) = geometry i pixels m e in
    (
      rw (made i pixels m e) refl,
      rw
          (
            made i pixels m e,
            not_lt→ltb (length (preview_bytes i pixels ++ rest)) 1032
                (length_bytes i pixels rest hp),
            read_u16_le-write_u16_le i.frame_id _ hi,
            read_u16_le-write_u16_le i.width _ (omega arith),
            read_u16_le-write_u16_le i.height _ (omega arith),
            format i pixels m e,
          )
          refl,
    )
