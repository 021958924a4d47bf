-- ===== src/Display/Tests.antt =====
-- A router with two sinks that count what they get, and the theorems applied to it.
use espview.Base.{ℕ, ◌≡◌, refl, ◌↔◌, ◌⊎◌, Bool, true, false, [], ◌∷◌, some, suc}
use espview.Display.Router.{
  DisplayStatus, DisplayRouteMode, RouterState, SinkOperations, DisplayRouter, set_mode, route_app,
  from_wire_mode, to_wire_mode,
}
use espview.Display.Router.Delivery.{Delivered, route_app-Delivered}
use espview.Display.Router.Switching.{Switched, set_mode-Switched}
use espview.Display.Router.Routes.{route_app-ok, from_wire_mode-to_wire_mode}

-- What a sink was given, and whether it is enabled.
abbrev Counter : Type 0
Counter = ℕ × Bool

abbrev counting : SinkOperations Counter ℕ (ℕ × ℕ)
counting = record {
  present = λ rect pixels s. (DisplayStatus.ok, (suc s.0, s.1));
  present_scene = λ scene s. (DisplayStatus.ok, (suc s.0, s.1));
  flush = λ s. (DisplayStatus.ok, s);
  set_enabled = λ on s. (DisplayStatus.ok, (s.0, on));
  is_available = λ s. s.1;
}

abbrev router : DisplayRouter Counter
router = record {
  virtual = some (0, true);
  physical = some (0, true);
  mode = DisplayRouteMode.split;
  state = RouterState.connected;
  hooks = record { stale_clear = true; full_resync = false };
}

abbrev pixel : ℕ × ℕ
pixel = (0, 0)

set_mode-Switched_example :
    Switched counting DisplayRouteMode.mirror router
      (set_mode counting DisplayRouteMode.mirror router)
set_mode-Switched_example = set_mode-Switched counting DisplayRouteMode.mirror router

route_app-ok_example :
    let out = route_app counting (counting.present pixel (1 ∷ 2 ∷ [])) router in
    (out.0.overall ≡ DisplayStatus.ok) ↔ (
      (out.0.virtual_status ≡ some DisplayStatus.ok)
      ⊎ (out.0.physical_status ≡ some DisplayStatus.ok))
route_app-ok_example = route_app-ok counting (counting.present pixel (1 ∷ 2 ∷ [])) router refl

route_app-Delivered_example :
    let out = route_app counting (counting.present pixel (1 ∷ 2 ∷ [])) router in
    Delivered counting (counting.present pixel (1 ∷ 2 ∷ [])) router out.0 out.1
route_app-Delivered_example =
    route_app-Delivered counting (counting.present pixel (1 ∷ 2 ∷ [])) router

from_wire_mode-to_wire_mode_example :
    (from_wire_mode 3 ≡ some DisplayRouteMode.split) ↔ (to_wire_mode DisplayRouteMode.split ≡ 3)
from_wire_mode-to_wire_mode_example = from_wire_mode-to_wire_mode 3 DisplayRouteMode.split
