-- ===== src/Input/Codec/RoundTrip.antt =====
-- shared/input/input_codec.cpp: the decoding of an event that was encoded.
use espview.Base.{
  ℕ, ◌+◌, ◌^◌, ◌<◌, ◌≡◌, refl, arith, Bool, true, false, some, ◌==◌, ◌!=◌, if◌then◌else◌,
}
use espview.Base.Word.{u16}
use espview.Protocol.ByteOrder.{write_u16_le, write_u32_le}
use espview.Protocol.ByteOrder.RoundTrip.{read_u16_le-write_u16_le, read_u32_le-write_u32_le}
use espview.Protocol.Message.{Message}
use espview.Protocol.Message.Builders.{make_input_key, make_input_mouse}
use espview.Input.Event.{
  InputType, InputEvent, empty_event, is_valid_hid_usage, is_valid_button_mask,
  is_valid_modifier_mask, is_point_in_display_bounds,
}
use espview.Input.Codec.{
  mouse_flag_abs, is_key_down, encode_key, encode_mouse, encode_by, encode_input_event, decode_key,
  decode_mouse, decode_input_message,
}

-- What the wire carries of an event: of a key its usage and modifiers, of the pointer its state.
abbrev sent_key : InputType → InputEvent → InputEvent
sent_key t e = record empty_event { type = t; keycode = e.keycode; modifiers = e.modifiers }

abbrev sent_mouse : InputEvent → InputEvent
sent_mouse e = record empty_event {
  type = if e.wheel_delta != 0 then InputType.mouse_wheel else InputType.mouse_move;
  x = e.x;
  y = e.y;
  buttons = e.buttons;
  wheel_delta = e.wheel_delta;
}

abbrev sent_by : InputType → InputEvent → InputEvent
sent_by InputType.key_down e = sent_key InputType.key_down e
sent_by InputType.key_up e = sent_key InputType.key_up e
sent_by _ e = sent_mouse e

abbrev pub sent : InputEvent → InputEvent
sent e = sent_by e.type e

abbrev key_type : Bool → InputType
key_type true = InputType.key_down
key_type false = InputType.key_up

key_written :
    (e : InputEvent) (down : Bool) (m : Message)
    → encode_key e down ≡ some m
    → (is_valid_hid_usage e.keycode ≡ true)
      × (is_valid_modifier_mask e.modifiers ≡ true)
      × (m ≡ make_input_key e.keycode e.modifiers down)
unfolding encode_key
key_written e down m h = ground arith

usage_bound : (k : ℕ) → is_valid_hid_usage k ≡ true → k < 2 ^ 32
usage_bound k h = ground arith

key_flag : (down : Bool) → is_key_down (if down then 1 else 0) ≡ true
key_flag true = refl
key_flag false = refl

key_flag_type :
    (down : Bool)
    → (if (if down then 1 else 0) == 1 then InputType.key_down else InputType.key_up)
      ≡ key_type down
key_flag_type true = refl
key_flag_type false = refl

key_read :
    (e : InputEvent) (down : Bool)
    → is_valid_hid_usage e.keycode ≡ true
    → is_valid_modifier_mask e.modifiers ≡ true
    → e.modifiers < 2 ^ 16
    → decode_key (make_input_key e.keycode e.modifiers down).payload
      ≡ some (sent_key (key_type down) e)
unfolding decode_key make_input_key write_u16_le write_u32_le
key_read e down u v w =
    rw
      (
        read_u32_le-write_u32_le e.keycode _ (usage_bound e.keycode u),
        read_u16_le-write_u16_le e.modifiers _ w,
        u,
        v,
        key_flag down,
        key_flag_type down,
      )
      refl

key_sent :
    (e : InputEvent) (down : Bool) (m : Message) (max_x max_y : ℕ)
    → encode_key e down ≡ some m
    → e.modifiers < 2 ^ 16
    → decode_input_message m max_x max_y ≡ some (sent_key (key_type down) e)
unfolding decode_input_message make_input_key
key_sent e down m max_x max_y h w =
    let (u, v, same) = key_written e down m h in rw same (key_read e down u v w)

mouse_written :
    (e : InputEvent) (max_x max_y : ℕ) (m : Message)
    → encode_mouse e max_x max_y ≡ some m
    → (is_valid_button_mask e.buttons ≡ true)
      × (is_point_in_display_bounds e.x e.y (u16 (max_x + 1)) (u16 (max_y + 1)) ≡ true)
      × (m ≡ make_input_mouse e.buttons e.x e.y e.wheel_delta mouse_flag_abs)
unfolding encode_mouse
mouse_written e max_x max_y m h = ground arith

point_bound :
    (x y w h : ℕ)
    → is_point_in_display_bounds x y (u16 w) (u16 h) ≡ true
    → (x < 2 ^ 16) × (y < 2 ^ 16)
point_bound x y w h e = ground arith

mouse_sent :
    (e : InputEvent) (m : Message) (max_x max_y : ℕ)
    → encode_mouse e max_x max_y ≡ some m
    → decode_input_message m max_x max_y ≡ some (sent_mouse e)
unfolding decode_input_message decode_mouse make_input_mouse write_u16_le
mouse_sent e m max_x max_y h =
    let (b, p, same) = mouse_written e max_x max_y m h in
    let (hx, hy) = point_bound e.x e.y (max_x + 1) (max_y + 1) p in
    rw same (rw (read_u16_le-write_u16_le e.x _ hx, read_u16_le-write_u16_le e.y _ hy, b, p) refl)

sent_lem :
    (t : InputType) (e : InputEvent) (m : Message) (max_x max_y : ℕ)
    → encode_by t e max_x max_y ≡ some m
    → e.modifiers < 2 ^ 16
    → decode_input_message m max_x max_y ≡ some (sent_by t e)
unfolding encode_by
sent_lem InputType.key_down e m max_x max_y h w = key_sent e true m max_x max_y h w
sent_lem InputType.key_up e m max_x max_y h w = key_sent e false m max_x max_y h w
sent_lem InputType.mouse_move e m max_x max_y h w = mouse_sent e m max_x max_y h
sent_lem InputType.mouse_down e m max_x max_y h w = mouse_sent e m max_x max_y h
sent_lem InputType.mouse_up e m max_x max_y h w = mouse_sent e m max_x max_y h
sent_lem InputType.mouse_wheel e m max_x max_y h w = mouse_sent e m max_x max_y h
sent_lem InputType.touch_down e m max_x max_y h w = cc
sent_lem InputType.touch_move e m max_x max_y h w = cc
sent_lem InputType.touch_up e m max_x max_y h w = cc

-- An event that is encoded for a display, with modifiers of 16 bits, is decoded at the same display to
-- what the wire carries of it: a key's kind, usage and modifiers; of the pointer its place, its buttons
-- and the wheel, as a wheel event if that turned, and else as a move.
pub decode-encode :
    (e : InputEvent) (m : Message) (max_x max_y : ℕ)
    → encode_input_event e max_x max_y ≡ some m
    → e.modifiers < 2 ^ 16
    → decode_input_message m max_x max_y ≡ some (sent e)
unfolding encode_input_event
decode-encode e m max_x max_y h w = sent_lem e.type e m max_x max_y h w
