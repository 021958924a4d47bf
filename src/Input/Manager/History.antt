-- ===== src/Input/Manager/History.antt =====
-- shared/input/input_manager.cpp: what the listener knows in runs of the manager.
use espview.Base.{
  ℕ, ◌+◌, ◌^◌, ◌<◌, ◌≡◌, refl, ap, ◌∙◌, arith, Bool, true, false, ◌||◌, List, [], ◌∷◌, ◌++◌, ◌==◌,
  ◌!=◌, if◌then◌else◌, bit_and, all_below, all_below-lt, All, Bool-cases, inl, inr,
}
use espview.Base.Word.{u64}
use espview.Input.Event.{InputType, InputEvent, make_mouse_button}
use espview.Input.Manager.{
  InputManager, button_bits, apply_wheel, find_key, reject, unsupported, feed_by, feed,
  note_invalid_input, button_releases, key_releases, reset_state, Input, fed, invalid, reset,
  resized, step, steps, set_display_size, valid_key, valid_mouse,
}
use espview.Input.Manager.View.{Seen, see, held, see-append}
use espview.Input.Manager.Telling.{
  Tells, IsListened, valid_mask, press-Tells, release-Tells, set_buttons-Tells, apply_move-Tells,
  told-true,
}

see-key_releases :
    (k : ℕ) (ks : List ℕ) (s : Seen)
    → see k (key_releases ks) s ≡ ((if find_key k ks then false else s.0), s.1)
unfolding see find_key
see-key_releases k [] s = refl
see-key_releases k (j ∷ ks) (down, mask) =
    ground (arith, see-key_releases k ks (if j == k then false else down, mask))

-- A held button is among the bits of the loop.
some_button : ℕ → List ℕ → Bool
some_button b [] = false
some_button b (bit ∷ bits) = bit_and b bit != 0 || some_button b bits

see-button_releases :
    (k b x y : ℕ) (bits : List ℕ) (s : Seen)
    → see k (button_releases b (make_mouse_button InputType.mouse_up x y 0 0) bits) s
      ≡ (s.0, if some_button b bits then 0 else s.1)
unfolding see button_releases some_button
see-button_releases k b x y [] s = refl
see-button_releases k b x y (bit ∷ bits) (down, mask) = ground (
  arith,
  see-button_releases k b x y bits (down, mask),
  see-button_releases k b x y bits (down, 0),
)

buttons_table : all_below 8 (λ b. b == 0 || some_button b button_bits) ≡ true
unfolding all_below some_button
buttons_table = refl

all_released : (b : ℕ) → b < 8 → (if some_button b button_bits then 0 else b) ≡ 0
all_released b h =
    ground
      (arith, all_below-lt 8 (λ (c : ℕ). c == 0 || some_button c button_bits) b buttons_table h)

reset_state-Tells : (k : ℕ) (m : InputManager) → IsListened m → Tells k m (reset_state m)
unfolding reset_state find_key
reset_state-Tells k m v =
    let keys = key_releases m.pressed_keys in
    let ups =
      button_releases m.buttons
        (make_mouse_button InputType.mouse_up m.stats.last_x m.stats.last_y 0 0) button_bits in
    let up : (if find_key k m.pressed_keys then false else find_key k m.pressed_keys) ≡ false =
      ground arith in
    record {
      seen =
          ap (λ (es : List InputEvent). see k es (held k m))
            (told-true m.listener (keys ++ ups) v.listener)
          ∙ see-append k keys ups (held k m)
          ∙ ap (λ (s : Seen). see k ups s) (see-key_releases k m.pressed_keys (held k m))
          ∙ see-button_releases k m.buttons m.stats.last_x m.stats.last_y button_bits
              ((if find_key k m.pressed_keys then false else find_key k m.pressed_keys), m.buttons)
          ∙ ap
              (λ (b : ℕ).
                ((if find_key k m.pressed_keys then false else find_key k m.pressed_keys), b))
              (all_released m.buttons v.buttons)
          ∙ ap (λ (d : Bool). (d, 0)) up;
      listener = v.listener;
      buttons = omega arith;
    }

module _ (k : ℕ) (m : InputManager) (v : IsListened m) where
  reject-Tells : Tells k m (reject m)
  unfolding reject see
  reject-Tells = record { seen = refl; listener = v.listener; buttons = v.buttons }

  unsupported-Tells : Tells k m (unsupported m)
  unfolding unsupported see
  unsupported-Tells = record { seen = refl; listener = v.listener; buttons = v.buttons }

module _ (k : ℕ) (m : InputManager) (v : IsListened m) (e : InputEvent)
    (byte : e.buttons < 2 ^ 8) where
  mouse-valid : valid_mouse m e ≡ true → e.buttons < 8
  mouse-valid t = valid_mask e.buttons byte (ground arith)

  feed_by-Tells : (t : InputType) → e.type ≡ t → Tells k m (feed_by t e m)
  unfolding feed_by apply_wheel
  feed_by-Tells InputType.key_down t = elim (Bool-cases (valid_key e)) [
    | inl y ↦ rw y (press-Tells k m v e t)
    | inr n ↦ rw n (reject-Tells k m v)
  ]
  feed_by-Tells InputType.key_up t = elim (Bool-cases (valid_key e)) [
    | inl y ↦ rw y (release-Tells k m v e t)
    | inr n ↦ rw n (reject-Tells k m v)
  ]
  feed_by-Tells InputType.mouse_down t = elim (Bool-cases (valid_mouse m e)) [
    | inl y ↦ rw y (set_buttons-Tells k m v e (rw t refl, refl) (mouse-valid y))
    | inr n ↦ rw n (reject-Tells k m v)
  ]
  feed_by-Tells InputType.mouse_up t = elim (Bool-cases (valid_mouse m e)) [
    | inl y ↦ rw y (set_buttons-Tells k m v e (rw t refl, refl) (mouse-valid y))
    | inr n ↦ rw n (reject-Tells k m v)
  ]
  feed_by-Tells InputType.mouse_wheel t = elim (Bool-cases (valid_mouse m e)) [
    | inl y ↦ rw y (set_buttons-Tells k m v e (rw t refl, refl) (mouse-valid y))
    | inr n ↦ rw n (reject-Tells k m v)
  ]
  feed_by-Tells InputType.mouse_move t = elim (Bool-cases (valid_mouse m e)) [
    | inl y ↦ rw y (apply_move-Tells k m v e (mouse-valid y))
    | inr n ↦ rw n (reject-Tells k m v)
  ]
  feed_by-Tells InputType.touch_down t = unsupported-Tells k m v
  feed_by-Tells InputType.touch_move t = unsupported-Tells k m v
  feed_by-Tells InputType.touch_up t = unsupported-Tells k m v

feed-Tells :
    (k : ℕ) (m : InputManager)
    → IsListened m
    → (e : InputEvent) → e.buttons < 2 ^ 8
    → Tells k m (feed e m)
unfolding feed
feed-Tells k m v e byte =
    let m' : InputManager = record m {
      stats = record m.stats { events_received = u64 (m.stats.events_received + 1) };
    } in
    let t =
      feed_by-Tells k m' (record { listener = v.listener; buttons = v.buttons }) e byte e.type
        refl in
    record { seen = t.seen; listener = t.listener; buttons = t.buttons }

-- The buttons of an event are a byte.
abbrev pub HasByte : Input → Type 0
HasByte (fed e) = e.buttons < 2 ^ 8
HasByte _ = Unit {0}

step-Tells :
    (k : ℕ) (m : InputManager) → IsListened m → (i : Input) → HasByte i → Tells k m (step i m)
unfolding step set_display_size see note_invalid_input
step-Tells k m v (fed e) byte = feed-Tells k m v e byte
step-Tells k m v invalid byte = reject-Tells k m v
step-Tells k m v reset byte = reset_state-Tells k m v
step-Tells k m v (resized w h) byte = record {
  seen = refl;
  listener = v.listener;
  buttons = v.buttons;
}

-- Over any sequence of events, rejections, resets and changes of the size, from a manager with a
-- listener: whoever replays the listener's calls, on top of what was held before, knows of every key
-- whether the manager holds it down, and the mask of the buttons that it holds.
pub steps-Tells :
    (k : ℕ) (is : List Input) (m : InputManager)
    → IsListened m
    → All HasByte is
    → Tells k m (steps is m)
unfolding steps see
steps-Tells k [] m v h = record { seen = refl; listener = v.listener; buttons = v.buttons }
steps-Tells k (i ∷ is) m v (byte, h) =
    let first = step-Tells k m v i byte in
    let m' : InputManager = (step i m).0 in
    let rest =
      steps-Tells k is m' (record { listener = first.listener; buttons = first.buttons }) h in
    record {
      seen =
          see-append k (step i m).1 (steps is m').1 (held k m)
          ∙ ap (λ (s : Seen). see k (steps is m').1 s) first.seen
          ∙ rest.seen;
      listener = rest.listener;
      buttons = rest.buttons;
    }

-- A reset, whatever was held: the listener, that knew what was held, knows that no key and no button
-- is held, nor does the manager hold any.
pub reset_state_all :
    (k : ℕ) (m : InputManager)
    → IsListened m
    → (see k (reset_state m).1 (held k m) ≡ (false, 0)) × (held k (reset_state m).0 ≡ (false, 0))
unfolding find_key reset_state
reset_state_all k m v = ((reset_state-Tells k m v).seen, refl)
