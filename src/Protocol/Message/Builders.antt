-- ===== src/Protocol/Message/Builders.antt =====
-- shared/protocol/message.cpp: the builders of messages without a list in their payload. A string is
-- the list of its bytes; the numbers are in the range of their types, and `size_t` has
-- 64 bits, so that no product of two of 16 bits wraps.
use espview.Base.{
  ℕ, ◌*◌, Bool, ◌||◌, List, [], ◌∷◌, ◌++◌, Option, none, some, ltb, ◌!=◌, if◌then◌else◌, length,
}
use espview.Base.Word.{u8}
use espview.Protocol.Wire.{
  DisplayMode, display_mode_code, ErrorCode, error_code, FrameType, frame_type_code, PixelFormat,
  pixel_format_code, flag_ack_req, frame_end_flag_aborted,
}
use espview.Protocol.MessageType
use espview.Protocol.ByteOrder.{write_u16_le, write_u32_le, write_u64_le}
use espview.Protocol.Message.{Message, make_message}

-- A width or a height that the protocol refuses.
abbrev pub out_of_geometry : ℕ → Bool
out_of_geometry n = ltb n 1 || ltb 4096 n

unfoldable pub make_hello : ℕ → ℕ → ℕ → ℕ → PixelFormat → ℕ → List ℕ → Option Message
make_hello protocol_version device_class width height format mode_mask device_name =
    if ltb 32 (length device_name)
    then none
    else if out_of_geometry width || out_of_geometry height
    then none
    else some (
        make_message MessageType.hello 0 (
          protocol_version
          ∷ device_class
          ∷ (write_u16_le width
              ++ (write_u16_le height
                  ++ (pixel_format_code format
                      ∷ mode_mask
                      ∷ u8 (length device_name)
                      ∷ device_name)))))

unfoldable pub make_set_mode : DisplayMode → Message
make_set_mode mode = make_message MessageType.set_mode flag_ack_req (display_mode_code mode ∷ [])

unfoldable pub make_ack : ℕ → ℕ → ErrorCode → Message
make_ack ack_seq status e =
    make_message MessageType.ack 0 (write_u16_le ack_seq ++ (status ∷ write_u16_le (error_code e)))

unfoldable pub make_error : ErrorCode → List ℕ → Option Message
make_error e text =
    if ltb 64 (length text)
    then none
    else some (
        make_message MessageType.error 0 (write_u16_le (error_code e) ++ (u8 (length text) ∷ text)))

unfoldable pub make_ping : ℕ → Message
make_ping timestamp_ms = make_message MessageType.ping 0 (write_u64_le timestamp_ms)

unfoldable pub make_pong : ℕ → Message
make_pong timestamp_ms = make_message MessageType.pong 0 (write_u64_le timestamp_ms)

unfoldable pub make_input_key : ℕ → ℕ → Bool → Message
make_input_key keycode modifiers down =
    make_message MessageType.input_key 0
      (write_u32_le keycode ++ (write_u16_le modifiers ++ ((if down then 1 else 0) ∷ 0 ∷ [])))

-- The wheel is its byte, in two's complement.
unfoldable pub make_input_mouse : ℕ → ℕ → ℕ → ℕ → ℕ → Message
make_input_mouse buttons x y wheel flags =
    make_message MessageType.input_mouse 0
      (buttons ∷ (write_u16_le x ++ (write_u16_le y ++ (wheel ∷ flags ∷ 0 ∷ []))))

unfoldable pub make_frame_begin : ℕ → FrameType → PixelFormat → ℕ → ℕ → ℕ → Option Message
make_frame_begin frame_id type format width height byte_hint =
    if out_of_geometry width || out_of_geometry height
    then none
    else some (
        make_message MessageType.frame_begin 0 (
          write_u16_le frame_id
          ++ (frame_type_code type
              ∷ pixel_format_code format
              ∷ (write_u16_le width ++ (write_u16_le height ++ write_u32_le byte_hint)))))

unfoldable pub make_frame_rect : ℕ → ℕ → ℕ → ℕ → List ℕ → Option Message
make_frame_rect x y w h pixels =
    if ltb w 1 || ltb h 1
    then none
    else if length pixels != w * h * 2
    then none
    else some (
        make_message MessageType.frame_rect 0
          (write_u16_le x ++ (write_u16_le y ++ (write_u16_le w ++ (write_u16_le h ++ pixels)))))

unfoldable pub make_frame_end : ℕ → ℕ → ℕ → Bool → Message
make_frame_end frame_id rect_count byte_count aborted = make_message MessageType.frame_end 0 (
    write_u16_le frame_id
    ++ (write_u16_le rect_count
        ++ (write_u32_le byte_count ++ ((if aborted then frame_end_flag_aborted else 0) ∷ []))))
