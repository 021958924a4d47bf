-- ===== src/Display/Router/Routes.antt =====
-- shared/display/display_router.cpp: the answer over both sinks, and the bytes of the modes.
use espview.Base.{ℕ, ◌≡◌, refl, sym, ap, ◌∙◌, ◌↔◌, ◌⊎◌, true, Option, some, arith}
use espview.Display.Router.{
  DisplayStatus, DisplayRouteMode, SinkOperations, DisplayRouter, from_wire_mode, to_wire_mode,
  virtual_on, physical_gets_app, is_output_ready, overall, call_sink, route_app,
}

abbrev Accepted : Option DisplayStatus → Type 0
Accepted v = v ≡ some DisplayStatus.ok

-- The status over both sinks is `ok` exactly if one of them accepted.
overall_ok :
    (v p : Option DisplayStatus) → (overall v p ≡ DisplayStatus.ok) ↔ (Accepted v ⊎ Accepted p)
overall_ok v p = ground arith

module _ {S Scene Rect : Type 0} (ops : SinkOperations S Scene Rect) where
  -- Once a mode was chosen, a call on the application's route answers `ok` exactly if a sink that it
  -- was passed to accepted it, whatever the operation and whatever the other sink answers.
  pub route_app-ok :
      (call : S → DisplayStatus × S) (r : DisplayRouter S)
      → is_output_ready r.state ≡ true
      → ((route_app ops call r).0.overall ≡ DisplayStatus.ok) ↔ (
          ((route_app ops call r).0.virtual_status ≡ some DisplayStatus.ok)
          ⊎ ((route_app ops call r).0.physical_status ≡ some DisplayStatus.ok))
  unfolding route_app
  route_app-ok call r e =
      rw (route_app, e)
        (overall_ok (call_sink ops call (virtual_on r.mode) r.virtual).0
          (call_sink ops call (physical_gets_app r.mode) r.physical).0)

-- The byte of a mode on the wire gives the mode back.
wire_mode_back : (m : DisplayRouteMode) → from_wire_mode (to_wire_mode m) ≡ some m
unfolding from_wire_mode
wire_mode_back DisplayRouteMode.virtual_only = refl
wire_mode_back DisplayRouteMode.physical_only = refl
wire_mode_back DisplayRouteMode.mirror = refl
wire_mode_back DisplayRouteMode.split = refl

-- A byte is that of the mode which it is read as.
byte_back : (wire : ℕ) (m : DisplayRouteMode) → from_wire_mode wire ≡ some m → to_wire_mode m ≡ wire
unfolding from_wire_mode
byte_back wire m e = ground arith

-- A byte is read as a mode exactly if it is the byte of that mode, so every other byte is refused.
pub from_wire_mode-to_wire_mode :
    (wire : ℕ) (m : DisplayRouteMode) → (from_wire_mode wire ≡ some m) ↔ (to_wire_mode m ≡ wire)
from_wire_mode-to_wire_mode wire m =
    (byte_back wire m, λ e. ap from_wire_mode (sym e) ∙ wire_mode_back m)
