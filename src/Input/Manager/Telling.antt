-- ===== src/Input/Manager/Telling.antt =====
-- shared/input/input_manager.cpp: what each operation tells the listener.
use espview.Base.{
  ℕ, ◌+◌, ◌*◌, ◌/◌, ◌%◌, ◌^◌, ◌<◌, ◌≡◌, refl, sym, ap, ◌∙◌, arith, Bool, true, false, not, ◌&&◌,
  ◌||◌, List, [], ◌∷◌, ◌++◌, ◌==◌, ◌!=◌, if◌then◌else◌, ltb, bit_and, all_below, all_below-lt, All,
  All-append, Bool-cases, inl, inr,
}
use espview.Input.Event.{InputType, InputEvent, is_valid_button_mask}
use espview.Input.Manager.{
  InputManager, Stepped, told, forward, forward_all, set_buttons, button_bits, new_bits, bit_events,
  all_bit_events, move_events, apply_move, find_key, press, release,
}
use espview.Input.Manager.View.{
  see, held, see-HasMask_some, HasMask, find_key-with_key, find_key-remove_key,
}

-- The listener, that knew what was held before, knows what is held after.
pub record Tells (k : ℕ) (m : InputManager) (s : Stepped) : Type 0 where
  pub seen : see k s.1 (held k m) ≡ held k s.0
  pub listener : s.0.listener ≡ true
  pub buttons : s.0.buttons < 8

pub record IsListened (m : InputManager) : Type 0 where
  pub listener : m.listener ≡ true
  pub buttons : m.buttons < 8

mask_table : all_below 256 (λ b. not (is_valid_button_mask b) || ltb b 8) ≡ true
unfolding all_below
mask_table = refl

pub valid_mask : (b : ℕ) → b < 2 ^ 8 → is_valid_button_mask b ≡ true → b < 8
valid_mask b h v =
    ground
      (arith, all_below-lt 256 (λ (c : ℕ). not (is_valid_button_mask c) || ltb c 8) b mask_table h)

pub told-true : (l : Bool) (es : List InputEvent) → l ≡ true → told l es ≡ es
told-true true es h = refl
told-true false es h = cc

forward_all_calls :
    (es : List InputEvent) (m : InputManager)
    → m.listener ≡ true
    → ((forward_all es m).1 ≡ es)
      × ((forward_all es m).0.pressed_keys ≡ m.pressed_keys)
      × ((forward_all es m).0.listener ≡ true)
unfolding forward_all
forward_all_calls [] m h = (refl, refl, h)
forward_all_calls (e ∷ es) m h =
    let m' : InputManager = (forward e m).0 in
    let (calls, keys, l) = forward_all_calls es m' h in
    (
      ap (λ (fs : List InputEvent). fs ++ (forward_all es m').1) (told-true m.listener (e ∷ []) h)
          ∙ ap (λ (fs : List InputEvent). e ∷ fs) calls,
      keys,
      l,
    )

module _ (k : ℕ) (m : InputManager) (v : IsListened m) (e : InputEvent) where
  pub press-Tells : e.type ≡ InputType.key_down → Tells k m (press e m)
  unfolding press see
  press-Tells t = record {
    seen =
        rw (v.listener, t)
          (ap (λ (b : Bool). (b, m.buttons)) (sym (find_key-with_key k e.keycode m.pressed_keys)));
    listener = v.listener;
    buttons = v.buttons;
  }

  pub release-Tells : e.type ≡ InputType.key_up → Tells k m (release e m)
  unfolding release see
  release-Tells t = record {
    seen =
        rw (v.listener, t)
          (ap (λ (b : Bool). (b, m.buttons))
            (sym (find_key-remove_key k e.keycode m.pressed_keys)));
    listener = v.listener;
    buttons = v.buttons;
  }

  pub set_buttons-Tells :
      HasMask e.buttons e → e.buttons < 8 → Tells k m (forward e (set_buttons e.buttons e.x e.y m))
  unfolding forward set_buttons
  set_buttons-Tells h b = record {
    seen = rw v.listener (see-HasMask_some k e.buttons (e ∷ []) (held k m) (h, tt) (λ n. cc));
    listener = v.listener;
    buttons = b;
  }

All-when :
    (b : ℕ) (test : Bool) (e : InputEvent)
    → HasMask b e
    → All (HasMask b) (if test then e ∷ [] else [])
All-when b true e h = (h, tt)
All-when b false e h = tt

all_bit_events-HasMask :
    (g l : ℕ) (e : InputEvent) (bits : List ℕ) → All (HasMask e.buttons) (all_bit_events g l e bits)
unfolding all_bit_events bit_events
all_bit_events-HasMask g l e [] = tt
all_bit_events-HasMask g l e (bit ∷ bits) =
    let P = HasMask e.buttons in
    let down = if bit_and g bit != 0 then record e { type = InputType.mouse_down } ∷ [] else [] in
    let up = if bit_and l bit != 0 then record e { type = InputType.mouse_up } ∷ [] else [] in
    All-append P (down ++ up) (all_bit_events g l e bits)
      (All-append P down up
        (All-when e.buttons (bit_and g bit != 0) (record e { type = InputType.mouse_down })
          (refl, refl))
        (All-when e.buttons (bit_and l bit != 0) (record e { type = InputType.mouse_up })
          (refl, refl)))
      (all_bit_events-HasMask g l e bits)

-- Some bit of the two masks is among the bits.
some_bit : ℕ → ℕ → List ℕ → Bool
some_bit g l [] = false
some_bit g l (bit ∷ bits) = (bit_and g bit != 0 || bit_and l bit != 0) || some_bit g l bits

all_bit_events_some :
    (g l : ℕ) (e : InputEvent) (bits : List ℕ)
    → some_bit g l bits ≡ true
    → all_bit_events g l e bits ≡ []
    → ⊥
unfolding all_bit_events bit_events some_bit
all_bit_events_some g l e [] h n = cc
all_bit_events_some g l e (bit ∷ bits) h n = ground (arith, all_bit_events_some g l e bits)

-- Two masks are the same, or some bit of the loop tells them apart.
abbrev told_apart : ℕ → ℕ → Bool
told_apart before now =
    (new_bits now before == 0 && new_bits before now == 0)
    || some_bit (new_bits now before) (new_bits before now) button_bits

bits_table : all_below 64 (λ n. told_apart (n / 8) (n % 8)) ≡ true
unfolding all_below some_bit
bits_table = refl

told_apart_lem : (before now : ℕ) → before < 8 → now < 8 → told_apart before now ≡ true
told_apart_lem before now hb hn =
    let n : ℕ = before * 8 + now in
    let lo : n % 8 ≡ now = omega arith in
    let hi : n / 8 ≡ before = omega arith in
    ap (λ (a : ℕ). told_apart a now) (sym hi)
    ∙ ap (λ (b : ℕ). told_apart (n / 8) b) (sym lo)
    ∙ all_below-lt 64 (λ (c : ℕ). told_apart (c / 8) (c % 8)) n bits_table (omega arith)

move_events-HasMask :
    (before : ℕ) (raw : InputEvent) → All (HasMask raw.buttons) (move_events before raw)
unfolding move_events
move_events-HasMask before raw =
    let e : InputEvent = record raw { type = InputType.mouse_move } in
    let g = new_bits raw.buttons before in
    let l = new_bits before raw.buttons in
    All-append (HasMask raw.buttons) (all_bit_events g l e button_bits)
      (if g == 0 && l == 0 then e ∷ [] else []) (all_bit_events-HasMask g l e button_bits)
      (All-when raw.buttons (g == 0 && l == 0) e (refl, refl))

append-nil_left : (es fs : List InputEvent) → es ++ fs ≡ [] → (es ≡ []) × (fs ≡ [])
append-nil_left [] fs h = (refl, h)
append-nil_left (e ∷ es) fs h = cc

move_events_some :
    (before : ℕ) (raw : InputEvent) → before < 8 → raw.buttons < 8 → move_events before raw ≡ [] → ⊥
unfolding move_events
move_events_some before raw hb hn n =
    let e : InputEvent = record raw { type = InputType.mouse_move } in
    let g = new_bits raw.buttons before in
    let l = new_bits before raw.buttons in
    let (none_bits, none_move) =
      append-nil_left (all_bit_events g l e button_bits) (if g == 0 && l == 0 then e ∷ [] else [])
        n in
    elim (Bool-cases (g == 0 && l == 0)) [
      | inl same ↦ let x : e ∷ [] ≡ [] = rw same at none_move in cc
      | inr other ↦
          let some : some_bit g l button_bits ≡ true =
            rw other at (told_apart_lem before raw.buttons hb hn) in
          all_bit_events_some g l e button_bits some none_bits
    ]

pub apply_move-Tells :
    (k : ℕ) (m : InputManager)
    → IsListened m
    → (e : InputEvent) → e.buttons < 8
    → Tells k m (apply_move e m)
unfolding apply_move
apply_move-Tells k m v e b =
    let moved : InputManager = record m {
      stats = record m.stats { last_x = e.x; last_y = e.y; pressed_buttons = e.buttons };
    } in
    let (calls, keys, l) = forward_all_calls (move_events m.buttons e) moved v.listener in
    record {
      seen =
          ap (λ (es : List InputEvent). see k es (held k m)) calls
          ∙ see-HasMask_some k e.buttons (move_events m.buttons e) (held k m)
              (move_events-HasMask m.buttons e) (move_events_some m.buttons e v.buttons b)
          ∙ ap (λ (ks : List ℕ). (find_key k ks, e.buttons)) (sym keys);
      listener = l;
      buttons = b;
    }
