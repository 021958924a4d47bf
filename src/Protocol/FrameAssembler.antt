-- ===== src/Protocol/FrameAssembler.antt =====
-- shared/protocol/frame_assembler.h and frame_assembler.cpp: from the messages of a frame to one
-- committed frame. The callbacks are events, in the order of the calls. The enumerations of a
-- frame's begin are held as their bytes, which is what the casts of the source keep.
pub mod Contract
pub mod Opening
pub mod Parts
pub mod History
pub mod BuiltParts
pub mod Built
use espview.Base.{
  ℕ, zero, suc, ◌+◌, ◌-◌, ◌*◌, Bool, true, false, not, ◌&&◌, ◌||◌, List, [], ◌∷◌, ◌++◌, Option,
  none, some, bit_and, ltb, leb, ◌==◌, ◌!=◌, if◌then◌else◌, length, drop, get_or, set, replicate,
}
use espview.Base.Word.{u16, u32, u64}
use espview.Protocol.Wire.{max_message_payload, frame_end_flag_aborted}
use espview.Protocol.MessageType
use espview.Protocol.ByteOrder.{read_u16_le, read_u32_le}
use espview.Protocol.Message.{Message}

abbrev pub max_frame_rect_count : ℕ
max_frame_rect_count = 0xFFFF

pub data FrameState : Type 0 where
  idle in_frame discard_frame : FrameState

abbrev pub frame_full : ℕ
frame_full = 0

abbrev pub frame_partial : ℕ
frame_partial = 1

abbrev pub rgb565 : ℕ
rgb565 = 0

pub record FrameBeginInfo : Type 0 where
  pub frame_id : ℕ
  pub frame_type : ℕ
  pub pixel_format : ℕ
  pub width : ℕ
  pub height : ℕ
  pub byte_hint : ℕ

abbrev pub empty_begin : FrameBeginInfo
empty_begin = record {
  frame_id = 0;
  frame_type = frame_full;
  pixel_format = rgb565;
  width = 0;
  height = 0;
  byte_hint = 0;
}

pub record RectInfo : Type 0 where
  pub x : ℕ
  pub y : ℕ
  pub w : ℕ
  pub h : ℕ

pub record CommittedFrame : Type 0 where
  pub frame_id : ℕ
  pub frame_type : ℕ
  pub pixel_format : ℕ
  pub width : ℕ
  pub height : ℕ
  pub rect_count : ℕ
  pub byte_count : ℕ

pub data FrameDiscardReason : Type 0 where
  aborted end_invalid_layout end_frame_id_mismatch end_rect_count_mismatch : FrameDiscardReason
  end_byte_count_mismatch invalid_begin invalid_rect stream_error : FrameDiscardReason
  partial_without_base superseded_by_new_begin by_reset : FrameDiscardReason

abbrev pub reason_code : FrameDiscardReason → ℕ
reason_code FrameDiscardReason.aborted = 0
reason_code FrameDiscardReason.end_invalid_layout = 1
reason_code FrameDiscardReason.end_frame_id_mismatch = 2
reason_code FrameDiscardReason.end_rect_count_mismatch = 3
reason_code FrameDiscardReason.end_byte_count_mismatch = 4
reason_code FrameDiscardReason.invalid_begin = 5
reason_code FrameDiscardReason.invalid_rect = 6
reason_code FrameDiscardReason.stream_error = 7
reason_code FrameDiscardReason.partial_without_base = 8
reason_code FrameDiscardReason.superseded_by_new_begin = 9
reason_code FrameDiscardReason.by_reset = 10

pub record FrameStats : Type 0 where
  pub commits_full : ℕ
  pub commits_partial : ℕ
  pub discards_total : ℕ
  pub discard_by_reason : List ℕ

abbrev pub no_stats : FrameStats
no_stats = record {
  commits_full = 0;
  commits_partial = 0;
  discards_total = 0;
  discard_by_reason = replicate 11 0;
}

-- `FrameStats::onCommit` and `FrameStats::onDiscard`.
unfoldable pub count_commit : ℕ → FrameStats → FrameStats
count_commit type s =
    if type == frame_full
    then record s { commits_full = u64 (s.commits_full + 1) }
    else record s { commits_partial = u64 (s.commits_partial + 1) }

unfoldable pub count_discard : FrameDiscardReason → FrameStats → FrameStats
count_discard r s = record s {
  discards_total = u64 (s.discards_total + 1);
  discard_by_reason =
      set s.discard_by_reason (reason_code r)
        (u64 (get_or s.discard_by_reason (reason_code r) 0 + 1));
}

-- The callbacks.
pub data FrameEvent : Type 0 where
  on_begin : FrameBeginInfo → FrameEvent
  on_rect : RectInfo → List ℕ → FrameEvent
  on_commit : CommittedFrame → FrameEvent
  on_discard : FrameDiscardReason → FrameEvent

pub record FrameAssembler : Type 0 where
  pub state : FrameState
  pub begin : FrameBeginInfo
  pub rect_count : ℕ
  pub byte_count : ℕ
  pub has_committed_base : Bool
  pub stats : FrameStats

abbrev pub init : FrameAssembler
init = record {
  state = FrameState.idle;
  begin = empty_begin;
  rect_count = 0;
  byte_count = 0;
  has_committed_base = false;
  stats = no_stats;
}

abbrev pub Stepped : Type 0
Stepped = FrameAssembler × List FrameEvent

-- 0 for a format that is not known.
abbrev pub bytes_per_pixel : ℕ → ℕ
bytes_per_pixel fmt = if fmt == rgb565 then 2 else 0

unfoldable pub discard_to : FrameDiscardReason → FrameAssembler → Stepped
unfolding count_discard
discard_to r a = (
  record a { state = FrameState.discard_frame; stats = count_discard r a.stats },
  on_discard r ∷ [],
)

abbrev pub cleared : FrameStats → FrameAssembler
cleared stats = record {
  state = FrameState.idle;
  begin = empty_begin;
  rect_count = 0;
  byte_count = 0;
  has_committed_base = false;
  stats = stats;
}

-- `reset` and `onStreamError`, by the state.
unfoldable pub reset_turn : FrameState → FrameAssembler → Stepped
unfolding count_discard
reset_turn FrameState.in_frame a = (
  cleared (count_discard FrameDiscardReason.by_reset a.stats),
  on_discard FrameDiscardReason.by_reset ∷ [],
)
reset_turn _ a = (cleared a.stats, [])

unfoldable pub reset : FrameAssembler → Stepped
unfolding reset_turn
reset a = reset_turn a.state a

unfoldable pub error_turn : FrameState → FrameAssembler → Stepped
unfolding discard_to
error_turn FrameState.in_frame a = discard_to FrameDiscardReason.stream_error a
error_turn _ a = (a, [])

unfoldable pub on_stream_error : FrameAssembler → Stepped
unfolding error_turn
on_stream_error a = error_turn a.state a

-- The checks of `handleBegin`, and the fields that it stores when they pass.
unfoldable pub begin_ok : List ℕ → Bool
begin_ok p =
    length p == 12
    && (get_or p 2 0 == frame_full || get_or p 2 0 == frame_partial)
    && bytes_per_pixel (get_or p 3 0) != 0
    && leb 1 (read_u16_le (drop 4 p))
    && leb (read_u16_le (drop 4 p)) 4096
    && leb 1 (read_u16_le (drop 6 p))
    && leb (read_u16_le (drop 6 p)) 4096

unfoldable pub begin_fields : List ℕ → FrameBeginInfo
begin_fields p = record {
  frame_id = read_u16_le p;
  frame_type = get_or p 2 0;
  pixel_format = get_or p 3 0;
  width = read_u16_le (drop 4 p);
  height = read_u16_le (drop 6 p);
  byte_hint = read_u32_le (drop 8 p);
}

-- A begin that passed the checks.
unfoldable pub open_frame : FrameBeginInfo → FrameAssembler → Stepped
open_frame b a = (
  record a { state = FrameState.in_frame; begin = b; rect_count = 0; byte_count = 0 },
  on_begin b ∷ [],
)

-- `handleBegin` behind its checks, by their outcome and the state.
unfoldable pub begin_turn : Bool → FrameState → FrameBeginInfo → FrameAssembler → Stepped
unfolding discard_to open_frame
begin_turn true FrameState.in_frame b a =
    let (a', events) = discard_to FrameDiscardReason.superseded_by_new_begin a in
    let (a'', more) = open_frame b a' in (a'', events ++ more)
begin_turn true _ b a = open_frame b a
begin_turn false FrameState.discard_frame b a = (a, [])
begin_turn false _ b a = discard_to FrameDiscardReason.invalid_begin a

unfoldable pub handle_begin : List ℕ → FrameAssembler → Stepped
unfolding begin_turn begin_ok begin_fields
handle_begin p a = begin_turn (begin_ok p) a.state (begin_fields p) a

unfoldable pub rect_fields : List ℕ → RectInfo
rect_fields p = record {
  x = read_u16_le p;
  y = read_u16_le (drop 2 p);
  w = read_u16_le (drop 4 p);
  h = read_u16_le (drop 6 p);
}

abbrev pub pixel_bytes : FrameBeginInfo → RectInfo → ℕ
pixel_bytes b r = r.w * r.h * bytes_per_pixel b.pixel_format

-- The checks on a rectangle itself; the sums are those of 32 bits, which two u16 do not exceed.
unfoldable pub rect_fits : FrameBeginInfo → RectInfo → Bool
rect_fits b r =
    leb 1 r.w
    && leb 1 r.h
    && bytes_per_pixel b.pixel_format != 0
    && leb (r.x + r.w) b.width
    && leb (r.y + r.h) b.height

-- The checks of `handleRect`. The sum `8u + pixelBytes` and that with `byteCount_` are of 64 bits.
unfoldable pub rect_ok : List ℕ → FrameAssembler → Bool
unfolding rect_fields rect_fits
rect_ok p a =
    let r = rect_fields p in
    let n = pixel_bytes a.begin r in
    leb 8 (length p)
    && leb (length p) max_message_payload
    && rect_fits a.begin r
    && length p == 8 + n
    && ltb a.rect_count max_frame_rect_count
    && leb (a.byte_count + n) 0xFFFFFFFF

-- A rectangle that passed the checks.
unfoldable pub add_rect : RectInfo → List ℕ → FrameAssembler → Stepped
add_rect r pixels a = (
  record a { rect_count = a.rect_count + 1; byte_count = a.byte_count + pixel_bytes a.begin r },
  on_rect r pixels ∷ [],
)

-- `handleRect` behind its checks.
unfoldable pub rect_turn : Bool → FrameState → List ℕ → FrameAssembler → Stepped
unfolding discard_to rect_fields add_rect
rect_turn true FrameState.in_frame p a = add_rect (rect_fields p) (drop 8 p) a
rect_turn false FrameState.in_frame p a = discard_to FrameDiscardReason.invalid_rect a
rect_turn ok _ p a = (a, [])

unfoldable pub handle_rect : List ℕ → FrameAssembler → Stepped
unfolding rect_turn rect_ok
handle_rect p a = rect_turn (rect_ok p a) a.state p a

-- The checks of `handleEnd`, in its order: `none` commits.
unfoldable pub end_refusal : List ℕ → FrameAssembler → Option FrameDiscardReason
end_refusal p a =
    if length p != 9
    then some FrameDiscardReason.end_invalid_layout
    else if bit_and (get_or p 8 0) frame_end_flag_aborted != 0
    then some FrameDiscardReason.aborted
    else if bit_and (get_or p 8 0) 0xFE != 0
    then some FrameDiscardReason.end_invalid_layout
    else if read_u16_le p != a.begin.frame_id
    then some FrameDiscardReason.end_frame_id_mismatch
    else if read_u16_le (drop 2 p) != a.rect_count
    then some FrameDiscardReason.end_rect_count_mismatch
    else if read_u32_le (drop 4 p) != a.byte_count
    then some FrameDiscardReason.end_byte_count_mismatch
    else if a.begin.frame_type == frame_partial && not a.has_committed_base
    then some FrameDiscardReason.partial_without_base
    else none

unfoldable pub committed : FrameAssembler → CommittedFrame
committed a = record {
  frame_id = a.begin.frame_id;
  frame_type = a.begin.frame_type;
  pixel_format = a.begin.pixel_format;
  width = a.begin.width;
  height = a.begin.height;
  rect_count = u16 a.rect_count;
  byte_count = u32 a.byte_count;
}

unfoldable pub commit : FrameAssembler → Stepped
unfolding committed count_commit
commit a = (
  record {
    state = FrameState.idle;
    begin = empty_begin;
    rect_count = 0;
    byte_count = 0;
    has_committed_base = true;
    stats = count_commit a.begin.frame_type a.stats;
  },
  on_commit (committed a) ∷ [],
)

-- `handleEnd` behind its checks.
unfoldable pub end_turn : Option FrameDiscardReason → FrameState → FrameAssembler → Stepped
unfolding discard_to commit
end_turn (some r) FrameState.in_frame a = discard_to r a
end_turn none FrameState.in_frame a = commit a
end_turn refusal _ a = (a, [])

unfoldable pub handle_end : List ℕ → FrameAssembler → Stepped
unfolding end_turn end_refusal
handle_end p a = end_turn (end_refusal p a) a.state a

unfoldable pub on_message : Message → FrameAssembler → Stepped
unfolding handle_begin handle_rect handle_end
on_message msg a =
    if msg.type == MessageType.frame_begin
    then handle_begin msg.payload a
    else if msg.type == MessageType.frame_rect
    then handle_rect msg.payload a
    else if msg.type == MessageType.frame_end
    then handle_end msg.payload a
    else (a, [])

-- What the assembler is told.
pub data Input : Type 0 where
  message : Message → Input
  stream_error : Input
  reset_input : Input

unfoldable pub step : Input → FrameAssembler → Stepped
unfolding on_message on_stream_error reset
step (message msg) a = on_message msg a
step stream_error a = on_stream_error a
step reset_input a = reset a

unfoldable pub steps : List Input → FrameAssembler → Stepped
unfolding step
steps [] a = (a, [])
steps (i ∷ is) a =
    let (a', events) = step i a in let (a'', more) = steps is a' in (a'', events ++ more)
