-- ===== src/Input/CoordinateMapper.antt =====
-- shared/input/coordinate_mapper.h and coordinate_mapper.cpp: a point of the window as a point of the
-- display. An `int` is an integer; the products are of 64 bits and cannot overflow.
pub mod Bounds
use espview.Base.{
  ℕ, ◌+◌, ◌-◌, ◌*◌, ◌/◌, Bool, true, false, not, ◌&&◌, ◌||◌, Option, none, some, ltb, leb, ◌==◌,
  if◌then◌else◌,
}
use espview.Base.Int.{ℤ, pos, negsuc, pos_part}

-- The image of the display in the window: its width and height.
unfoldable pub image_size : ℕ → ℕ → ℕ → ℕ → ℕ × ℕ
image_size widget_w widget_h display_w display_h =
    if leb (widget_w * display_h) (widget_h * display_w)
    then (widget_w, display_h * widget_w / display_w)
    else (display_w * widget_h / display_h, widget_h)

-- `dst <= p < dst + size`, for a bound that is not negative.
abbrev pub inside : ℤ → ℕ → ℕ → Bool
inside (pos p) dst size = leb dst p && ltb p (dst + size)
inside (negsuc p) dst size = false

-- The display's coordinate of a point inside the image.
abbrev pub scaled : ℤ → ℕ → ℕ → ℕ → ℕ
scaled p dst display size = (pos_part p - dst) * display / size

-- The test of the point against the image, and the point on the display.
unfoldable pub map_in : ℤ → ℤ → ℕ → ℕ → ℕ → ℕ → ℕ × ℕ → Option (ℕ × ℕ)
map_in x y widget_w widget_h display_w display_h (dst_w, dst_h) =
    if dst_w == 0 || dst_h == 0
    then none
    else let dst_x = widget_w / 2 - dst_w / 2 in
      let dst_y = widget_h / 2 - dst_h / 2 in
      if inside x dst_x dst_w && inside y dst_y dst_h
      then some (scaled x dst_x display_w dst_w, scaled y dst_y display_h dst_h)
      else none

unfoldable pub map_point : ℤ → ℤ → ℤ → ℤ → ℤ → ℤ → Option (ℕ × ℕ)
unfolding map_in image_size
map_point x y widget_w widget_h display_w display_h =
    let ww = pos_part widget_w in
    let wh = pos_part widget_h in
    let dw = pos_part display_w in
    let dh = pos_part display_h in
    if ww == 0 || wh == 0 || dw == 0 || dh == 0
    then none
    else map_in x y ww wh dw dh (image_size ww wh dw dh)
