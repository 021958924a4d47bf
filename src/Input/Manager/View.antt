-- ===== src/Input/Manager/View.antt =====
-- shared/input/input_manager.cpp: what the listener is told, against what the manager holds.
use espview.Base.{
  ℕ, ◌≡◌, refl, ap, arith, Bool, true, false, List, [], ◌∷◌, ◌++◌, ◌==◌, if◌then◌else◌, All,
}
use espview.Input.Event.{InputType, InputEvent}
use espview.Input.Manager.{InputManager, find_key, remove_key, with_key}

-- What a listener knows of one key, and of the buttons: is the key down, and the buttons' mask.
abbrev pub Seen : Type 0
Seen = Bool × ℕ

abbrev pub see_by : InputType → ℕ → InputEvent → Seen → Seen
see_by InputType.key_down k e (down, mask) = (if e.keycode == k then true else down, mask)
see_by InputType.key_up k e (down, mask) = (if e.keycode == k then false else down, mask)
see_by InputType.mouse_move k e (down, mask) = (down, e.buttons)
see_by InputType.mouse_down k e (down, mask) = (down, e.buttons)
see_by InputType.mouse_up k e (down, mask) = (down, e.buttons)
see_by InputType.mouse_wheel k e (down, mask) = (down, e.buttons)
see_by InputType.touch_down k e s = s
see_by InputType.touch_move k e s = s
see_by InputType.touch_up k e s = s

-- The last event on the key, and the last one of the pointer, decide.
unfoldable pub see : ℕ → List InputEvent → Seen → Seen
see k [] s = s
see k (e ∷ es) s = see k es (see_by e.type k e s)

-- What the manager holds.
abbrev pub held : ℕ → InputManager → Seen
held k m = (find_key k m.pressed_keys, m.buttons)

pub see-append :
    (k : ℕ) (es fs : List InputEvent) (s : Seen) → see k (es ++ fs) s ≡ see k fs (see k es s)
unfolding see
see-append k [] fs s = refl
see-append k (e ∷ es) fs s = see-append k es fs (see_by e.type k e s)

find_key-append :
    (k j : ℕ) (ks : List ℕ) → find_key k (ks ++ (j ∷ [])) ≡ (if j == k then true else find_key k ks)
unfolding find_key
find_key-append k j [] = refl
find_key-append k j (i ∷ ks) = ground (arith, find_key-append k j ks)

pub find_key-with_key :
    (k j : ℕ) (ks : List ℕ) → find_key k (with_key j ks) ≡ (if j == k then true else find_key k ks)
find_key-with_key k j ks = ground (arith, find_key-append k j ks, same)
  where
    same : j ≡ k → find_key j ks ≡ find_key k ks
    same e = ap (λ (i : ℕ). find_key i ks) e

pub find_key-remove_key :
    (k j : ℕ) (ks : List ℕ)
    → find_key k (remove_key j ks) ≡ (if j == k then false else find_key k ks)
unfolding find_key remove_key
find_key-remove_key k j [] = ground arith
find_key-remove_key k j (i ∷ ks) = ground (arith, find_key-remove_key k j ks)

-- Every event of a list is of the pointer, and has this mask.
abbrev pub is_mouse : InputType → Bool
is_mouse InputType.mouse_move = true
is_mouse InputType.mouse_down = true
is_mouse InputType.mouse_up = true
is_mouse InputType.mouse_wheel = true
is_mouse _ = false

abbrev pub HasMask : ℕ → InputEvent → Type 0
HasMask b e = (is_mouse e.type ≡ true) × (e.buttons ≡ b)

see_mouse :
    (t : InputType) (k : ℕ) (e : InputEvent) (s : Seen)
    → is_mouse t ≡ true
    → see_by t k e s ≡ (s.0, e.buttons)
see_mouse InputType.mouse_move k e s h = refl
see_mouse InputType.mouse_down k e s h = refl
see_mouse InputType.mouse_up k e s h = refl
see_mouse InputType.mouse_wheel k e s h = refl
see_mouse InputType.key_down k e s h = cc
see_mouse InputType.key_up k e s h = cc
see_mouse InputType.touch_down k e s h = cc
see_mouse InputType.touch_move k e s h = cc
see_mouse InputType.touch_up k e s h = cc

see-HasMask :
    (k b : ℕ) (es : List InputEvent) (s : Seen)
    → All (HasMask b) es
    → s.1 ≡ b
    → see k es s ≡ (s.0, b)
unfolding see
see-HasMask k b [] s h e = ap (λ (c : ℕ). (s.0, c)) e
see-HasMask k b (e ∷ es) s ((t, m), h) x =
    rw (see_mouse e.type k e s t) (see-HasMask k b es (s.0, e.buttons) h m)

-- Such events, at least one of them.
pub see-HasMask_some :
    (k b : ℕ) (es : List InputEvent) (s : Seen)
    → All (HasMask b) es
    → (es ≡ [] → ⊥)
    → see k es s ≡ (s.0, b)
unfolding see
see-HasMask_some k b [] s h n = absurd (n refl)
see-HasMask_some k b (e ∷ es) s ((t, m), h) n =
    rw (see_mouse e.type k e s t) (see-HasMask k b es (s.0, e.buttons) h m)
