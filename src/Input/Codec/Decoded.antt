-- ===== src/Input/Codec/Decoded.antt =====
-- shared/input/input_codec.cpp: the encoding of an event that was decoded.
use espview.Base.{
  ℕ, ◌+◌, ◌≡◌, refl, sym, ap, arith, Bool, true, false, List, [], ◌∷◌, none, some, ◌==◌, ◌!=◌,
  if◌then◌else◌, length, drop, get_or, Bool-cases, ==_iff, inl, inr,
}
use mathlib.Core.Path.{subst}
use espview.Base.Word.{u16}
use espview.Base.Bytes.{IsBytes}
use espview.Protocol.MessageType
use espview.Protocol.ByteOrder.{read_u16_le, read_u32_le}
use espview.Protocol.ByteOrder.RoundTrip.{write_u16_le-read_u16_le, write_u32_le-read_u32_le}
use espview.Protocol.Message.{Message}
use espview.Protocol.Message.Builders.{make_input_key, make_input_mouse}
use espview.Input.Event.{
  InputType, InputEvent, empty_event, is_valid_hid_usage, is_valid_button_mask,
  is_valid_modifier_mask, is_point_in_display_bounds,
}
use espview.Input.Codec.{
  mouse_flag_abs, is_key_down, encode_key, encode_mouse, encode_by, encode_input_event, decode_key,
  decode_mouse, decode_input_message,
}

abbrev key_type_at : List ℕ → InputType
key_type_at p = if get_or p 6 0 == 1 then InputType.key_down else InputType.key_up

abbrev key_of : List ℕ → InputEvent
key_of p = record empty_event {
  type = key_type_at p;
  keycode = read_u32_le p;
  modifiers = read_u16_le (drop 4 p);
}

abbrev mouse_type_at : List ℕ → InputType
mouse_type_at p = if get_or p 5 0 != 0 then InputType.mouse_wheel else InputType.mouse_move

abbrev mouse_of : List ℕ → InputEvent
mouse_of p = record empty_event {
  type = mouse_type_at p;
  x = read_u16_le (drop 1 p);
  y = read_u16_le (drop 3 p);
  buttons = get_or p 0 0;
  wheel_delta = get_or p 5 0;
}

key_decoded :
    (p : List ℕ) (e : InputEvent)
    → decode_key p ≡ some e
    → (length p ≡ 8)
      × (is_valid_hid_usage (read_u32_le p) ≡ true)
      × (is_valid_modifier_mask (read_u16_le (drop 4 p)) ≡ true)
      × (is_key_down (get_or p 6 0) ≡ true)
      × (get_or p 7 0 ≡ 0)
      × (key_of p ≡ e)
unfolding decode_key
key_decoded p e h = ground arith

mouse_decoded :
    (p : List ℕ) (max_x max_y : ℕ) (e : InputEvent)
    → decode_mouse p max_x max_y ≡ some e
    → (length p ≡ 8)
      × (is_valid_button_mask (get_or p 0 0) ≡ true)
      × (is_point_in_display_bounds
            (read_u16_le (drop 1 p))
            (read_u16_le (drop 3 p))
            (u16 (max_x + 1))
            (u16 (max_y + 1))
          ≡ true)
      × (get_or p 6 0 ≡ 1)
      × (get_or p 7 0 ≡ 0)
      × (mouse_of p ≡ e)
unfolding decode_mouse
mouse_decoded p max_x max_y e h = ground arith

-- A payload is its eight bytes.
bytes_of_eight :
    (p : List ℕ)
    → length p ≡ 8
    → p
      ≡ get_or p 0 0
        ∷ get_or p 1 0
        ∷ get_or p 2 0
        ∷ get_or p 3 0
        ∷ get_or p 4 0
        ∷ get_or p 5 0
        ∷ get_or p 6 0
        ∷ get_or p 7 0
        ∷ []
bytes_of_eight (a ∷ b ∷ c ∷ d ∷ e ∷ f ∷ g ∷ h ∷ []) l = refl
bytes_of_eight [] l = absurd (omega arith)
bytes_of_eight (a ∷ []) l = absurd (omega arith)
bytes_of_eight (a ∷ b ∷ []) l = absurd (omega arith)
bytes_of_eight (a ∷ b ∷ c ∷ []) l = absurd (omega arith)
bytes_of_eight (a ∷ b ∷ c ∷ d ∷ []) l = absurd (omega arith)
bytes_of_eight (a ∷ b ∷ c ∷ d ∷ e ∷ []) l = absurd (omega arith)
bytes_of_eight (a ∷ b ∷ c ∷ d ∷ e ∷ f ∷ []) l = absurd (omega arith)
bytes_of_eight (a ∷ b ∷ c ∷ d ∷ e ∷ f ∷ g ∷ []) l = absurd (omega arith)
bytes_of_eight (a ∷ b ∷ c ∷ d ∷ e ∷ f ∷ g ∷ h ∷ i ∷ r) l = absurd (omega arith)

key_bytes :
    (a b c d f g k r : ℕ)
    → IsBytes (a ∷ b ∷ c ∷ d ∷ f ∷ g ∷ k ∷ r ∷ [])
    → is_key_down k ≡ true
    → r ≡ 0
    → let p = a ∷ b ∷ c ∷ d ∷ f ∷ g ∷ k ∷ r ∷ [] in
      (make_input_key (read_u32_le p) (read_u16_le (drop 4 p)) (k == 1)).payload ≡ p
unfolding make_input_key
key_bytes a b c d f g k r (ha, (hb, (hc, (hd, (hf, (hg, _)))))) down z =
    let flag : (if k == 1 then 1 else 0) ≡ k = ground arith in
    rw
      (
        write_u32_le-read_u32_le a b c d (f ∷ g ∷ k ∷ r ∷ []) (ha, (hb, (hc, (hd, tt)))),
        write_u16_le-read_u16_le f g (k ∷ r ∷ []) hf hg,
        flag,
        z,
      )
      refl

mouse_bytes :
    (a b c d f g k r : ℕ)
    → IsBytes (a ∷ b ∷ c ∷ d ∷ f ∷ g ∷ k ∷ r ∷ [])
    → k ≡ 1
    → r ≡ 0
    → let p = a ∷ b ∷ c ∷ d ∷ f ∷ g ∷ k ∷ r ∷ [] in
      (make_input_mouse a
        (read_u16_le (drop 1 p))
        (read_u16_le (drop 3 p))
        g
        mouse_flag_abs).payload
      ≡ p
unfolding make_input_mouse
mouse_bytes a b c d f g k r (_, (hb, (hc, (hd, (hf, _))))) o z =
    rw
      (
        write_u16_le-read_u16_le b c (d ∷ f ∷ g ∷ k ∷ r ∷ []) hb hc,
        write_u16_le-read_u16_le d f (g ∷ k ∷ r ∷ []) hd hf,
        o,
        z,
      )
      refl

module _ (p : List ℕ) (eight : length p ≡ 8) (v : IsBytes p) (z : get_or p 7 0 ≡ 0) where
  key_payload :
      is_key_down (get_or p 6 0) ≡ true
      → (make_input_key (read_u32_le p) (read_u16_le (drop 4 p)) (get_or p 6 0 == 1)).payload ≡ p
  key_payload down =
      let whole = bytes_of_eight p eight in
      subst
        (λ (q : List ℕ).
          (make_input_key (read_u32_le q) (read_u16_le (drop 4 q)) (get_or q 6 0 == 1)).payload ≡ q)
        (sym whole)
        (key_bytes (get_or p 0 0) (get_or p 1 0) (get_or p 2 0) (get_or p 3 0) (get_or p 4 0)
          (get_or p 5 0) (get_or p 6 0) (get_or p 7 0) (subst IsBytes whole v) down z)

  mouse_payload :
      get_or p 6 0 ≡ 1
      → (make_input_mouse
          (get_or p 0 0)
          (read_u16_le (drop 1 p))
          (read_u16_le (drop 3 p))
          (get_or p 5 0)
          mouse_flag_abs).payload
        ≡ p
  mouse_payload o =
      let whole = bytes_of_eight p eight in
      subst
        (λ (q : List ℕ).
          (make_input_mouse (get_or q 0 0) (read_u16_le (drop 1 q)) (read_u16_le (drop 3 q))
            (get_or q 5 0) mouse_flag_abs).payload
          ≡ q)
        (sym whole)
        (mouse_bytes (get_or p 0 0) (get_or p 1 0) (get_or p 2 0) (get_or p 3 0) (get_or p 4 0)
          (get_or p 5 0) (get_or p 6 0) (get_or p 7 0) (subst IsBytes whole v) o z)

encode_key_by :
    (down : Bool) (e : InputEvent) (max_x max_y : ℕ)
    → encode_by (if down then InputType.key_down else InputType.key_up) e max_x max_y
      ≡ encode_key e down
unfolding encode_by
encode_key_by true e max_x max_y = refl
encode_key_by false e max_x max_y = refl

encode_mouse_by :
    (wheel : Bool) (e : InputEvent) (max_x max_y : ℕ)
    → encode_by (if wheel then InputType.mouse_wheel else InputType.mouse_move) e max_x max_y
      ≡ encode_mouse e max_x max_y
unfolding encode_by
encode_mouse_by true e max_x max_y = refl
encode_mouse_by false e max_x max_y = refl

key_again :
    (p : List ℕ) (e : InputEvent) (max_x max_y : ℕ)
    → decode_key p ≡ some e
    → IsBytes p
    → encode_input_event e max_x max_y
      ≡ some (record { type = MessageType.input_key; flags = 0; payload = p })
unfolding encode_input_event encode_key make_input_key
key_again p e max_x max_y h v =
    let (eight, u, w, down, z, same) = key_decoded p e h in
    rw (← same) (
      rw (encode_key_by (get_or p 6 0 == 1) (key_of p) max_x max_y, u, w)
        (ap (λ (q : List ℕ). some (record { type = MessageType.input_key; flags = 0; payload = q }))
          (key_payload p eight v z down)))

mouse_again :
    (p : List ℕ) (e : InputEvent) (max_x max_y : ℕ)
    → decode_mouse p max_x max_y ≡ some e
    → IsBytes p
    → encode_input_event e max_x max_y
      ≡ some (record { type = MessageType.input_mouse; flags = 0; payload = p })
unfolding encode_input_event encode_mouse make_input_mouse
mouse_again p e max_x max_y h v =
    let (eight, b, w, o, z, same) = mouse_decoded p max_x max_y e h in
    rw (← same) (
      rw (encode_mouse_by (get_or p 5 0 != 0) (mouse_of p) max_x max_y, b, w)
        (ap
          (λ (q : List ℕ). some (record { type = MessageType.input_mouse; flags = 0; payload = q }))
          (mouse_payload p eight v z o)))

-- A message of bytes that is decoded to an event is, its flags cleared, the one that this event is
-- encoded to, at the same display.
pub encode-decode :
    (m : Message) (e : InputEvent) (max_x max_y : ℕ)
    → decode_input_message m max_x max_y ≡ some e
    → IsBytes m.payload
    → encode_input_event e max_x max_y ≡ some (record m { flags = 0 })
unfolding decode_input_message
encode-decode m e max_x max_y h v = elim (Bool-cases (m.type == MessageType.input_key)) [
  | inl k ↦
      let t : m.type ≡ MessageType.input_key = (==_iff m.type MessageType.input_key).0 k in
      let d : decode_key m.payload ≡ some e = rw k at h in
      rw t (key_again m.payload e max_x max_y d v)
  | inr n ↦ elim (Bool-cases (m.type == MessageType.input_mouse)) [
    | inl k ↦
        let t : m.type ≡ MessageType.input_mouse = (==_iff m.type MessageType.input_mouse).0 k in
        let d : decode_mouse m.payload max_x max_y ≡ some e = rw (n, k) at h in
        rw t (mouse_again m.payload e max_x max_y d v)
    | inr o ↦ let d : none ≡ some e = rw (n, o) at h in cc
  ]
]
