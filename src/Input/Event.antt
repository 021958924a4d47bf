-- ===== src/Input/Event.antt =====
-- shared/input/input_event.h: the input events of both ends, and the tests of their fields. A wheel
-- delta is its byte, in two's complement.
use espview.Base.{ℕ, ◌<◌, ◌^◌, Bool, ◌&&◌, ◌||◌, ltb, leb, ◌==◌, bit_and}

pub data InputType : Type 0 where
  mouse_move mouse_down mouse_up mouse_wheel : InputType
  key_down key_up : InputType
  touch_down touch_move touch_up : InputType

abbrev pub mouse_left : ℕ
mouse_left = 0x01

-- ~kMouseButtonMask, in a byte.
abbrev not_mouse_button_mask : ℕ
not_mouse_button_mask = 0xF8

-- ~kModifierMask, in 16 bits.
abbrev not_modifier_mask : ℕ
not_modifier_mask = 0xFFF0

abbrev hid_keyboard_first : ℕ
hid_keyboard_first = 0x04

abbrev hid_keyboard_last : ℕ
hid_keyboard_last = 0x65

abbrev hid_modifier_first : ℕ
hid_modifier_first = 0xE0

abbrev hid_modifier_last : ℕ
hid_modifier_last = 0xE7

abbrev pub is_valid_hid_usage : ℕ → Bool
is_valid_hid_usage usage =
    (leb hid_keyboard_first usage && leb usage hid_keyboard_last)
    || (leb hid_modifier_first usage && leb usage hid_modifier_last)

abbrev pub is_valid_button_mask : ℕ → Bool
is_valid_button_mask buttons = bit_and buttons not_mouse_button_mask == 0

abbrev pub is_valid_modifier_mask : ℕ → Bool
is_valid_modifier_mask modifiers = bit_and modifiers not_modifier_mask == 0

abbrev pub is_point_in_display_bounds : ℕ → ℕ → ℕ → ℕ → Bool
is_point_in_display_bounds x y width height = ltb x width && ltb y height

pub record InputEvent : Type 0 where
  pub type : InputType
  pub x : ℕ
  pub y : ℕ
  pub buttons : ℕ
  pub wheel_delta : ℕ
  pub keycode : ℕ
  pub modifiers : ℕ
  pub timestamp_ms : ℕ

-- An event with the members' initial values.
abbrev pub empty_event : InputEvent
empty_event = record {
  type = InputType.mouse_move;
  x = 0;
  y = 0;
  buttons = 0;
  wheel_delta = 0;
  keycode = 0;
  modifiers = 0;
  timestamp_ms = 0;
}

abbrev pub make_key_event : InputType → ℕ → ℕ → ℕ → InputEvent
make_key_event t k m ms = record empty_event {
  type = t;
  keycode = k;
  modifiers = m;
  timestamp_ms = ms;
}

abbrev pub make_mouse_button : InputType → ℕ → ℕ → ℕ → ℕ → InputEvent
make_mouse_button t x y b ms = record empty_event {
  type = t;
  x = x;
  y = y;
  buttons = b;
  timestamp_ms = ms;
}

-- The numbers of an event are in the range of their types.
pub record IsWords (e : InputEvent) : Type 0 where
  pub x : e.x < 2 ^ 16
  pub y : e.y < 2 ^ 16
  pub buttons : e.buttons < 2 ^ 8
  pub wheel_delta : e.wheel_delta < 2 ^ 8
  pub keycode : e.keycode < 2 ^ 32
  pub modifiers : e.modifiers < 2 ^ 16
