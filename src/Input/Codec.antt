-- ===== src/Input/Codec.antt =====
-- shared/input/input_codec.h and input_codec.cpp: input events as messages. The file's own `leU16` and
-- `leU32` are the readers of byte_order.h.
pub mod RoundTrip
pub mod Decoded
use espview.Base.{
  ℕ, ◌+◌, Bool, true, false, not, ◌&&◌, ◌||◌, List, [], ◌∷◌, Option, none, some, ◌==◌, ◌!=◌,
  if◌then◌else◌, length, drop, get_or,
}
use espview.Base.Word.{u16}
use espview.Protocol.MessageType
use espview.Protocol.ByteOrder.{read_u16_le, read_u32_le}
use espview.Protocol.Message.{Message}
use espview.Protocol.Message.Builders.{make_input_key, make_input_mouse}
use espview.Input.Event.{
  InputType, InputEvent, empty_event, is_valid_hid_usage, is_valid_button_mask,
  is_valid_modifier_mask, is_point_in_display_bounds,
}

abbrev pub mouse_flag_abs : ℕ
mouse_flag_abs = 0x01

abbrev pub is_key_down : ℕ → Bool
is_key_down v = v == 0 || v == 1

unfoldable pub encode_key : InputEvent → Bool → Option Message
encode_key e down =
    if not (is_valid_hid_usage e.keycode)
    then none
    else if not (is_valid_modifier_mask e.modifiers)
    then none
    else some (make_input_key e.keycode e.modifiers down)

unfoldable pub encode_mouse : InputEvent → ℕ → ℕ → Option Message
encode_mouse e max_x max_y =
    if not (is_valid_button_mask e.buttons)
    then none
    else if not (is_point_in_display_bounds e.x e.y (u16 (max_x + 1)) (u16 (max_y + 1)))
    then none
    else some (make_input_mouse e.buttons e.x e.y e.wheel_delta mouse_flag_abs)

-- The `switch` on the type.
unfoldable pub encode_by : InputType → InputEvent → ℕ → ℕ → Option Message
encode_by InputType.key_down e max_x max_y = encode_key e true
encode_by InputType.key_up e max_x max_y = encode_key e false
encode_by InputType.mouse_move e max_x max_y = encode_mouse e max_x max_y
encode_by InputType.mouse_down e max_x max_y = encode_mouse e max_x max_y
encode_by InputType.mouse_up e max_x max_y = encode_mouse e max_x max_y
encode_by InputType.mouse_wheel e max_x max_y = encode_mouse e max_x max_y
encode_by InputType.touch_down e max_x max_y = none
encode_by InputType.touch_move e max_x max_y = none
encode_by InputType.touch_up e max_x max_y = none

unfoldable pub encode_input_event : InputEvent → ℕ → ℕ → Option Message
unfolding encode_by encode_key encode_mouse
encode_input_event e max_x max_y = encode_by e.type e max_x max_y

unfoldable pub decode_key : List ℕ → Option InputEvent
decode_key p =
    if length p != 8
    then none
    else if not (is_valid_hid_usage (read_u32_le p))
    then none
    else if not (is_valid_modifier_mask (read_u16_le (drop 4 p)))
    then none
    else if not (is_key_down (get_or p 6 0))
    then none
    else if get_or p 7 0 != 0
    then none
    else some (record empty_event {
      type = if get_or p 6 0 == 1 then InputType.key_down else InputType.key_up;
      keycode = read_u32_le p;
      modifiers = read_u16_le (drop 4 p);
    })

unfoldable pub decode_mouse : List ℕ → ℕ → ℕ → Option InputEvent
decode_mouse p max_x max_y =
    if length p != 8
    then none
    else if not (is_valid_button_mask (get_or p 0 0))
    then none
    else if not (
        is_point_in_display_bounds (read_u16_le (drop 1 p)) (read_u16_le (drop 3 p))
          (u16 (max_x + 1)) (u16 (max_y + 1)))
    then none
    else if get_or p 6 0 != mouse_flag_abs
    then none
    else if get_or p 7 0 != 0
    then none
    else some (record empty_event {
      type = if get_or p 5 0 != 0 then InputType.mouse_wheel else InputType.mouse_move;
      x = read_u16_le (drop 1 p);
      y = read_u16_le (drop 3 p);
      buttons = get_or p 0 0;
      wheel_delta = get_or p 5 0;
    })

unfoldable pub decode_input_message : Message → ℕ → ℕ → Option InputEvent
unfolding decode_key decode_mouse
decode_input_message msg max_x max_y =
    if msg.type == MessageType.input_key
    then decode_key msg.payload
    else if msg.type == MessageType.input_mouse
    then decode_mouse msg.payload max_x max_y
    else none
