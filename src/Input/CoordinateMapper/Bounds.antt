-- ===== src/Input/CoordinateMapper/Bounds.antt =====
-- shared/input/coordinate_mapper.cpp: where the image and the mapped points lie.
use espview.Base.{
  ℕ, ◌-◌, ◌*◌, ◌/◌, ◌<◌, ◌≤◌, ◌≡◌, refl, arith, true, some, leb, Bool-cases, inl, inr, leb→le, ◌⊎◌,
}
use native.Mathlib.Nat.{div-lt_iff_lt-mul, div-le_of_le-mul}
use espview.Base.Int.{ℤ, pos, negsuc, pos_part}
use espview.Input.CoordinateMapper.{image_size, inside, scaled, map_in, map_point}

-- The image is in the window and touches two opposite sides of it.
pub record Fits (ww wh dw dh : ℕ) (image : ℕ × ℕ) : Type 0 where
  pub width : image.0 ≤ ww
  pub height : image.1 ≤ wh
  pub touches : (image.0 ≡ ww) ⊎ (image.1 ≡ wh)

pub image_size-Fits :
    (ww wh dw dh : ℕ) → 0 < dw → 0 < dh → Fits ww wh dw dh (image_size ww wh dw dh)
unfolding image_size
image_size-Fits ww wh dw dh hw hh = elim (Bool-cases (leb (ww * dh) (wh * dw))) [
  | inl wide ↦ rw wide (record {
    width = omega arith;
    height = div-le_of_le-mul dw (grind (arith, leb→le (ww * dh) (wh * dw) wide));
    touches = inl refl;
  })
  | inr tall ↦ rw tall (record {
    width = div-le_of_le-mul dh (ground arith);
    height = omega arith;
    touches = inr refl;
  })
]

-- A point of the window inside the image is scaled to a coordinate of the display.
scaled-lt :
    (p : ℤ) (dst display size : ℕ)
    → inside p dst size ≡ true
    → 0 < display
    → scaled p dst display size < display
scaled-lt (pos p) dst display size h d =
    let inner : p - dst < size = ground arith in
    let room : 0 < size = omega arith in
    (div-lt_iff_lt-mul {x = (p - dst) * display} {y = display} room).1 (grind (arith, inner))
scaled-lt (negsuc p) dst display size h d = cc

-- The point is a point of the window.
abbrev pub InWindow : ℤ → ℕ → Type 0
InWindow (pos p) size = p < size
InWindow (negsuc p) size = ⊥

inside-InWindow :
    (p : ℤ) (size image : ℕ)
    → inside p (size / 2 - image / 2) image ≡ true
    → image ≤ size
    → InWindow p size
inside-InWindow (pos p) size image h f = ground arith
inside-InWindow (negsuc p) size image h f = cc

pub record Mapped (x y : ℤ) (ww wh dw dh : ℕ) (point : ℕ × ℕ) : Type 0 where
  pub x_bound : point.0 < dw
  pub y_bound : point.1 < dh
  pub x_window : InWindow x ww
  pub y_window : InWindow y wh

map_in-Mapped :
    (x y : ℤ) (ww wh dw dh : ℕ) (image point : ℕ × ℕ)
    → Fits ww wh dw dh image
    → 0 < dw
    → 0 < dh
    → map_in x y ww wh dw dh image ≡ some point
    → Mapped x y ww wh dw dh point
unfolding map_in
map_in-Mapped x y ww wh dw dh (iw, ih) point fits hw hh e =
    let in_x : inside x (ww / 2 - iw / 2) iw ≡ true = ground arith in
    let in_y : inside y (wh / 2 - ih / 2) ih ≡ true = ground arith in
    let at_x : scaled x (ww / 2 - iw / 2) dw iw ≡ point.0 = ground arith in
    let at_y : scaled y (wh / 2 - ih / 2) dh ih ≡ point.1 = ground arith in
    record {
      x_bound = rw (← at_x) (scaled-lt x (ww / 2 - iw / 2) dw iw in_x hw);
      y_bound = rw (← at_y) (scaled-lt y (wh / 2 - ih / 2) dh ih in_y hh);
      x_window = inside-InWindow x ww iw in_x fits.width;
      y_window = inside-InWindow y wh ih in_y fits.height;
    }

-- A point that is mapped, for any integers at all: it is a point of the window, and it is mapped to a
-- point of the display.
pub map_point-Mapped :
    (x y widget_w widget_h display_w display_h : ℤ) (point : ℕ × ℕ)
    → map_point x y widget_w widget_h display_w display_h ≡ some point
    → Mapped x y
        (pos_part widget_w)
        (pos_part widget_h)
        (pos_part display_w)
        (pos_part display_h)
        point
unfolding map_point
map_point-Mapped x y widget_w widget_h display_w display_h point e =
    let ww = pos_part widget_w in
    let wh = pos_part widget_h in
    let dw = pos_part display_w in
    let dh = pos_part display_h in
    let hw : 0 < dw = ground arith in
    let hh : 0 < dh = ground arith in
    let m : map_in x y ww wh dw dh (image_size ww wh dw dh) ≡ some point = ground arith in
    map_in-Mapped x y ww wh dw dh (image_size ww wh dw dh) point (image_size-Fits ww wh dw dh hw hh)
      hw hh m
