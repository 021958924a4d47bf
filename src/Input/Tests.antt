-- ===== src/Input/Tests.antt =====
-- Runs of the input parts at concrete inputs, and the theorems applied to them.
use espview.Base.{ℕ, ◌≡◌, refl, arith, true, false, List, [], ◌∷◌, ◌++◌, none, some}
use espview.Base.Int.{pos}
use espview.Protocol.MessageType
use espview.Protocol.Message.{Message}
use espview.Input.Event.{InputType, InputEvent, empty_event}
use espview.Protocol.Message.Builders.{make_input_mouse}
use espview.Protocol.ByteOrder.{write_u16_le, read_u16_le}
use espview.Input.Event.{is_valid_hid_usage}
use espview.Input.Manager.{find_key}
use espview.Input.Codec.{encode_input_event, decode_input_message}
use espview.Input.Codec.RoundTrip.{sent, decode-encode}
use espview.Input.Codec.Decoded.{encode-decode}
use espview.Input.CoordinateMapper.{map_point}
use espview.Input.CoordinateMapper.Bounds.{Mapped, map_point-Mapped}
use espview.Input.HostKey
use espview.Input.KeyboardMapper.{KeyMapResult, map_key}
use espview.Input.KeyboardMapper.Usages.{map_key-injective}
use espview.Input.Manager.{InputManager, Input, fed, reset, steps, reset_state, init}
use espview.Input.Manager.View.{see, held}
use espview.Input.Manager.Telling.{IsListened, Tells}
use espview.Input.Manager.History.{steps-Tells, reset_state_all}
use espview.Input.Policy
use espview.Input.Policy.{Point, MouseMoveThrottle, Call, move, tick, restart}
use espview.Input.Policy.Latest.{last_of, steps-tick}

abbrev wheel : InputEvent
wheel = record empty_event {
  type = InputType.mouse_wheel;
  x = 319;
  y = 7;
  buttons = 1;
  wheel_delta = 0xFF;
  timestamp_ms = 12;
}

abbrev wheel_message : Message
wheel_message = record {
  type = MessageType.input_mouse;
  flags = 0;
  payload = 1 ∷ 0x3F ∷ 1 ∷ 7 ∷ 0 ∷ 0xFF ∷ 1 ∷ 0 ∷ [];
}

wheel_encoded : encode_input_event wheel 319 239 ≡ some wheel_message
unfolding encode_input_event make_input_mouse write_u16_le
wheel_encoded = refl

decode-encode_example : decode_input_message wheel_message 319 239 ≡ some (sent wheel)
decode-encode_example = decode-encode wheel wheel_message 319 239 wheel_encoded (omega arith)

wheel_decoded :
    decode_input_message wheel_message 319 239 ≡ some (record wheel { timestamp_ms = 0 })
unfolding decode_input_message read_u16_le
wheel_decoded = refl

encode-decode_example :
    encode_input_event (record wheel { timestamp_ms = 0 }) 319 239 ≡ some wheel_message
encode-decode_example =
    encode-decode wheel_message (record wheel { timestamp_ms = 0 }) 319 239 wheel_decoded
      (omega arith)

abbrev manager : InputManager
manager = record (init 320 240) { listener = true; pressed_keys = 0x04 ∷ []; buttons = 2 }

manager-IsListened : IsListened manager
manager-IsListened = record { listener = refl; buttons = omega arith }

abbrev key_b : InputEvent
key_b = record empty_event { type = InputType.key_down; keycode = 0x05 }

abbrev moved : InputEvent
moved = record empty_event { type = InputType.mouse_move; x = 5; y = 6; buttons = 5 }

abbrev session : List Input
session = fed key_b ∷ fed moved ∷ reset ∷ fed key_b ∷ []

session_events : see 0x05 (steps session manager).1 (held 0x05 manager) ≡ (true, 0)
unfolding steps see find_key
session_events = refl

steps-Tells_example : Tells 0x05 manager (steps session manager)
steps-Tells_example = steps-Tells 0x05 session manager manager-IsListened (omega arith)

reset_state_all_example :
    (see 0x04 (reset_state manager).1 (held 0x04 manager) ≡ (false, 0))
    × (held 0x04 (reset_state manager).0 ≡ (false, 0))
reset_state_all_example = reset_state_all 0x04 manager manager-IsListened

middle_mapped :
    map_point (pos 400) (pos 300) (pos 800) (pos 700) (pos 320) (pos 240) ≡ some (160, 100)
unfolding map_point
middle_mapped = refl

map_point-Mapped_example : Mapped (pos 400) (pos 300) 800 700 320 240 (160, 100)
map_point-Mapped_example =
    map_point-Mapped (pos 400) (pos 300) (pos 800) (pos 700) (pos 320) (pos 240) (160, 100)
      middle_mapped

abbrev usage_a : KeyMapResult
usage_a = record { hid_usage = 0x04; modifier_bit = 0 }

a_mapped : map_key HostKey.a_key ≡ some usage_a
unfolding map_key
a_mapped = refl

map_key-injective_example :
    (◌≡◌ {A = ℕ} HostKey.a_key HostKey.a_key) × (is_valid_hid_usage 0x04 ≡ true)
map_key-injective_example =
    map_key-injective HostKey.a_key HostKey.a_key usage_a usage_a a_mapped a_mapped refl

abbrev at_one : Point
at_one = record { x = 1; y = 1; buttons = 0 }

abbrev at_two : Point
at_two = record { x = 2; y = 1; buttons = 0 }

abbrev calls : List Call
calls = move 100 at_one ∷ restart ∷ move 110 at_one ∷ move 115 at_two ∷ []

steps-tick_example :
    last_of (Policy.steps (calls ++ (tick 116 ∷ [])) (Policy.init 16)).1 none ≡ some at_two
steps-tick_example = steps-tick calls 116 (Policy.init 16) none
