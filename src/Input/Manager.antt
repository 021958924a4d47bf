-- ===== src/Input/Manager.antt =====
-- shared/input/input_manager.h and input_manager.cpp: checked events, the keys and buttons that are
-- held, and the calls of the listener, as a list of events in the order of the calls.
pub mod View
pub mod Telling
pub mod History
use espview.Base.{
  ℕ, ◌+◌, ◌-◌, Bool, true, false, not, ◌&&◌, List, [], ◌∷◌, ◌++◌, ◌==◌, ◌!=◌, if◌then◌else◌, length,
  bit_and,
}
use espview.Base.Word.{u32, u64}
use espview.Input.Event.{
  InputType, InputEvent, make_key_event, make_mouse_button, is_valid_hid_usage,
  is_valid_button_mask, is_valid_modifier_mask, is_point_in_display_bounds,
}

pub record InputStats : Type 0 where
  pub events_received : ℕ
  pub valid_events : ℕ
  pub invalid_events : ℕ
  pub unsupported_events : ℕ
  pub reset_count : ℕ
  pub stuck_keys_released : ℕ
  pub stuck_buttons_released : ℕ
  pub pressed_keys : ℕ
  pub pressed_buttons : ℕ
  pub last_x : ℕ
  pub last_y : ℕ

abbrev pub no_stats : InputStats
no_stats = record {
  events_received = 0;
  valid_events = 0;
  invalid_events = 0;
  unsupported_events = 0;
  reset_count = 0;
  stuck_keys_released = 0;
  stuck_buttons_released = 0;
  pressed_keys = 0;
  pressed_buttons = 0;
  last_x = 0;
  last_y = 0;
}

-- `listener` is whether one is registered.
pub record InputManager : Type 0 where
  pub width : ℕ
  pub height : ℕ
  pub listener : Bool
  pub stats : InputStats
  pub pressed_keys : List ℕ
  pub buttons : ℕ

abbrev pub init : ℕ → ℕ → InputManager
init w h = record {
  width = w;
  height = h;
  listener = false;
  stats = no_stats;
  pressed_keys = [];
  buttons = 0;
}

abbrev pub Stepped : Type 0
Stepped = InputManager × List InputEvent

unfoldable pub register_listener : Bool → InputManager → InputManager
register_listener l m = record m { listener = l }

unfoldable pub set_display_size : ℕ → ℕ → InputManager → InputManager
set_display_size w h m = record m { width = w; height = h }

abbrev pub valid_key : InputEvent → Bool
valid_key e = is_valid_hid_usage e.keycode && is_valid_modifier_mask e.modifiers

abbrev pub valid_mouse : InputManager → InputEvent → Bool
valid_mouse m e =
    is_valid_button_mask e.buttons && is_point_in_display_bounds e.x e.y m.width m.height

-- The listener's calls, if there is one.
abbrev pub told : Bool → List InputEvent → List InputEvent
told true es = es
told false es = []

unfoldable pub forward : InputEvent → InputManager → Stepped
forward e m = (
  record m { stats = record m.stats { valid_events = u64 (m.stats.valid_events + 1) } },
  told m.listener (e ∷ []),
)

unfoldable pub forward_all : List InputEvent → InputManager → Stepped
unfolding forward
forward_all [] m = (m, [])
forward_all (e ∷ es) m =
    let (m', calls) = forward e m in let (m'', rest) = forward_all es m' in (m'', calls ++ rest)

unfoldable pub set_buttons : ℕ → ℕ → ℕ → InputManager → InputManager
set_buttons b x y m = record m {
  buttons = b;
  stats = record m.stats { pressed_buttons = b; last_x = x; last_y = y };
}

-- The bits that the loops over the buttons go through.
abbrev pub button_bits : List ℕ
button_bits = 0x01 ∷ 0x02 ∷ 0x04 ∷ 0x08 ∷ 0x10 ∷ 0x20 ∷ 0x40 ∷ 0x80 ∷ []

-- `now & ~before`, in a byte.
abbrev pub new_bits : ℕ → ℕ → ℕ
new_bits now before = bit_and now (255 - before)

-- The Down and Up of one bit.
unfoldable pub bit_events : ℕ → ℕ → InputEvent → ℕ → List InputEvent
bit_events gained lost e bit =
    (if bit_and gained bit != 0 then record e { type = InputType.mouse_down } ∷ [] else [])
    ++ (if bit_and lost bit != 0 then record e { type = InputType.mouse_up } ∷ [] else [])

unfoldable pub all_bit_events : ℕ → ℕ → InputEvent → List ℕ → List InputEvent
unfolding bit_events
all_bit_events gained lost e [] = []
all_bit_events gained lost e (bit ∷ bits) =
    bit_events gained lost e bit ++ all_bit_events gained lost e bits

-- What a move is forwarded as.
unfoldable pub move_events : ℕ → InputEvent → List InputEvent
unfolding all_bit_events
move_events before raw =
    let gained = new_bits raw.buttons before in
    let lost = new_bits before raw.buttons in
    let e = record raw { type = InputType.mouse_move } in
    all_bit_events gained lost e button_bits ++ (if gained == 0 && lost == 0 then e ∷ [] else [])

unfoldable pub apply_wheel : InputEvent → InputManager → Stepped
unfolding set_buttons forward
apply_wheel raw m = forward raw (set_buttons raw.buttons raw.x raw.y m)

unfoldable pub apply_move : InputEvent → InputManager → Stepped
unfolding set_buttons forward_all move_events
apply_move raw m =
    let moved : InputManager = record m {
      stats = record m.stats { last_x = raw.x; last_y = raw.y; pressed_buttons = raw.buttons };
    } in
    let (m', calls) = forward_all (move_events m.buttons raw) moved in
    (record m' { buttons = raw.buttons }, calls)

unfoldable pub find_key : ℕ → List ℕ → Bool
find_key k [] = false
find_key k (j ∷ ks) = if j == k then true else find_key k ks

unfoldable pub remove_key : ℕ → List ℕ → List ℕ
remove_key k [] = []
remove_key k (j ∷ ks) = let rest = remove_key k ks in if j == k then rest else j ∷ rest

abbrev set_keys : List ℕ → InputManager → InputManager
set_keys ks m = record m {
  pressed_keys = ks;
  stats = record m.stats { pressed_keys = u32 (length ks) };
}

abbrev pub with_key : ℕ → List ℕ → List ℕ
with_key k ks = if find_key k ks then ks else ks ++ (k ∷ [])

unfoldable pub press : InputEvent → InputManager → Stepped
unfolding forward find_key
press e m = forward e (set_keys (with_key e.keycode m.pressed_keys) m)

unfoldable pub release : InputEvent → InputManager → Stepped
unfolding forward remove_key
release e m = forward e (set_keys (remove_key e.keycode m.pressed_keys) m)

unfoldable pub reject : InputManager → Stepped
reject m =
    (record m { stats = record m.stats { invalid_events = u64 (m.stats.invalid_events + 1) } }, [])

unfoldable pub unsupported : InputManager → Stepped
unsupported m = (
  record m { stats = record m.stats { unsupported_events = u64 (m.stats.unsupported_events + 1) } },
  [],
)

-- The rest of `feedLocked`, by the type.
unfoldable pub feed_by : InputType → InputEvent → InputManager → Stepped
unfolding press release reject unsupported apply_wheel apply_move set_buttons forward
feed_by InputType.key_down e m = if valid_key e then press e m else reject m
feed_by InputType.key_up e m = if valid_key e then release e m else reject m
feed_by InputType.mouse_down e m =
    if valid_mouse m e then forward e (set_buttons e.buttons e.x e.y m) else reject m
feed_by InputType.mouse_up e m =
    if valid_mouse m e then forward e (set_buttons e.buttons e.x e.y m) else reject m
feed_by InputType.mouse_move e m = if valid_mouse m e then apply_move e m else reject m
feed_by InputType.mouse_wheel e m = if valid_mouse m e then apply_wheel e m else reject m
feed_by InputType.touch_down e m = unsupported m
feed_by InputType.touch_move e m = unsupported m
feed_by InputType.touch_up e m = unsupported m

unfoldable pub feed : InputEvent → InputManager → Stepped
unfolding feed_by
feed e m =
    let m' : InputManager = record m {
      stats = record m.stats { events_received = u64 (m.stats.events_received + 1) };
    } in
    feed_by e.type e m'

unfoldable pub note_invalid_input : InputManager → Stepped
unfolding reject
note_invalid_input m = reject m

abbrev pub key_releases : List ℕ → List InputEvent
key_releases [] = []
key_releases (k ∷ ks) = make_key_event InputType.key_up k 0 0 ∷ key_releases ks

unfoldable pub button_releases : ℕ → InputEvent → List ℕ → List InputEvent
button_releases b up [] = []
button_releases b up (bit ∷ bits) =
    (if bit_and b bit != 0 then up ∷ [] else []) ++ button_releases b up bits

unfoldable pub reset_state : InputManager → Stepped
unfolding button_releases
reset_state m =
    let up = make_mouse_button InputType.mouse_up m.stats.last_x m.stats.last_y 0 0 in
    let keys = key_releases m.pressed_keys in
    let ups = button_releases m.buttons up button_bits in
    let s : InputStats = m.stats in
    (
      record m {
        pressed_keys = [];
        buttons = 0;
        stats = record s {
          reset_count = u64 (s.reset_count + 1);
          stuck_keys_released = u64 (s.stuck_keys_released + length keys);
          stuck_buttons_released = u64 (s.stuck_buttons_released + length ups);
          pressed_keys = 0;
          pressed_buttons = 0;
        };
      },
      told m.listener (keys ++ ups),
    )

-- The calls of a manager in the course of a session.
pub data Input : Type 0 where
  fed : InputEvent → Input
  invalid : Input
  reset : Input
  resized : ℕ → ℕ → Input

unfoldable pub step : Input → InputManager → Stepped
unfolding feed note_invalid_input reset_state set_display_size
step (fed e) m = feed e m
step invalid m = note_invalid_input m
step reset m = reset_state m
step (resized w h) m = (set_display_size w h m, [])

unfoldable pub steps : List Input → InputManager → Stepped
unfolding step
steps [] m = (m, [])
steps (i ∷ is) m =
    let (m', calls) = step i m in let (m'', rest) = steps is m' in (m'', calls ++ rest)
