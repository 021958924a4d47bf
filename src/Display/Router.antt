-- ===== src/Display/Router.antt =====
-- shared/display/display_router.h and display_router.cpp: which display gets what. A sink is a value
-- of a type of its own, with the operations of display_sink.h; the two hooks are events.
pub mod Delivery
pub mod Routes
pub mod Settling
pub mod Switching
use espview.Base.{
  ℕ, Bool, true, false, not, ◌&&◌, ◌||◌, List, [], ◌∷◌, ◌++◌, Option, none, some, if◌then◌else◌,
  ◌==◌,
}

pub data DisplayStatus : Type 0 where
  ok invalid_param rect_too_large queue_full frame_busy frame_aborted : DisplayStatus
  not_enabled not_connected not_supported internal : DisplayStatus

pub data DisplayRouteMode : Type 0 where
  virtual_only physical_only mirror split : DisplayRouteMode

abbrev pub to_wire_mode : DisplayRouteMode → ℕ
to_wire_mode DisplayRouteMode.virtual_only = 0
to_wire_mode DisplayRouteMode.physical_only = 1
to_wire_mode DisplayRouteMode.mirror = 2
to_wire_mode DisplayRouteMode.split = 3

unfoldable pub from_wire_mode : ℕ → Option DisplayRouteMode
from_wire_mode wire =
    if wire == 0
    then some DisplayRouteMode.virtual_only
    else if wire == 1
    then some DisplayRouteMode.physical_only
    else if wire == 2
    then some DisplayRouteMode.mirror
    else if wire == 3
    then some DisplayRouteMode.split
    else none

pub data RouterState : Type 0 where
  idle switching connected degraded : RouterState

-- display_sink.h: what the router calls of `IDisplaySink`; it hands rectangles and scenes on.
pub record SinkOperations (S Scene Rect : Type 0) : Type 0 where
  pub present : Rect → List ℕ → S → DisplayStatus × S
  pub present_scene : Scene → S → DisplayStatus × S
  pub flush : S → DisplayStatus × S
  pub set_enabled : Bool → S → DisplayStatus × S
  pub is_available : S → Bool

-- The hooks that are set.
pub record Hooks : Type 0 where
  pub stale_clear : Bool
  pub full_resync : Bool

pub data HookCall : Type 0 where
  stale_clear full_resync : HookCall

pub record DisplayRouter (S : Type 0) : Type 0 where
  pub virtual : Option S
  pub physical : Option S
  pub mode : DisplayRouteMode
  pub state : RouterState
  pub hooks : Hooks

-- Which sinks are on in a mode, and which get the application's frames.
abbrev pub virtual_on : DisplayRouteMode → Bool
virtual_on DisplayRouteMode.physical_only = false
virtual_on _ = true

abbrev pub physical_on : DisplayRouteMode → Bool
physical_on DisplayRouteMode.virtual_only = false
physical_on _ = true

abbrev pub physical_gets_app : DisplayRouteMode → Bool
physical_gets_app DisplayRouteMode.physical_only = true
physical_gets_app DisplayRouteMode.mirror = true
physical_gets_app _ = false

abbrev pub attached {ℓ} : {A : Type ℓ} → Option A → Bool
attached none = false
attached (some s) = true

abbrev pub is_output_ready : RouterState → Bool
is_output_ready RouterState.connected = true
is_output_ready RouterState.degraded = true
is_output_ready _ = false

-- The error that is reported if no sink accepts: the first that is not `not_connected`.
abbrev pub first_error : DisplayStatus → DisplayStatus → DisplayStatus
first_error DisplayStatus.not_connected s = s
first_error e s = e

abbrev pub note : Option DisplayStatus → DisplayStatus × Bool → DisplayStatus × Bool
note none (e, any) = (e, any)
note (some DisplayStatus.ok) (e, any) = (e, true)
note (some s) (e, any) = (first_error e s, any)

abbrev pub overall : Option DisplayStatus → Option DisplayStatus → DisplayStatus
overall v p =
    let (e, any) = note p (note v (DisplayStatus.not_connected, false)) in
    if any then DisplayStatus.ok else e

module _ {S Scene Rect : Type 0} (ops : SinkOperations S Scene Rect) where
  abbrev pub available : Option S → Bool
  available none = false
  available (some s) = ops.is_available s

  unfoldable pub reconcile : DisplayRouter S → DisplayRouter S
  reconcile r =
      let virtual_ok = not (virtual_on r.mode) || available r.virtual in
      let physical_ok = not (physical_on r.mode) || available r.physical in
      record r {
        state = if virtual_ok && physical_ok then RouterState.connected else RouterState.degraded;
      }

  abbrev pub enable_sink : Bool → Option S → Option S
  enable_sink on none = none
  enable_sink on (some s) = some (ops.set_enabled on s).1

  -- The sinks after all were disabled, and those that the mode wants were enabled.
  unfoldable pub switch_sink : Bool → Option S → Option S
  switch_sink on sink =
      let disabled = enable_sink false sink in if on then enable_sink true disabled else disabled

  abbrev pub missing : DisplayRouteMode → DisplayRouter S → Bool
  missing m r =
      virtual_on m && not (attached r.virtual) || physical_on m && not (attached r.physical)

  -- A mode beyond the enumeration has no value here.
  unfoldable pub set_mode :
      DisplayRouteMode → DisplayRouter S → DisplayStatus × DisplayRouter S × List HookCall
  unfolding reconcile switch_sink
  set_mode m r = if missing m r then (DisplayStatus.invalid_param, r, []) else (
    DisplayStatus.ok,
    reconcile (record r {
      virtual = switch_sink (virtual_on m) r.virtual;
      physical = switch_sink (physical_on m) r.physical;
      mode = m;
    }),
    (if r.hooks.stale_clear then stale_clear ∷ [] else [])
        ++ (if r.hooks.full_resync then full_resync ∷ [] else []),
  )

  -- A call of a sink that is wanted and can take it: its status, and the sink afterwards.
  unfoldable pub call_sink :
      (S → DisplayStatus × S) → Bool → Option S → Option DisplayStatus × Option S
  call_sink call wanted none = (none, none)
  call_sink call wanted (some s) =
      if wanted && ops.is_available s then (some (call s).0, some (call s).1) else (none, some s)

  pub record RouteWriteResult : Type 0 where
    pub overall : DisplayStatus
    pub virtual_in_path : Bool
    pub virtual_status : Option DisplayStatus
    pub physical_status : Option DisplayStatus

  -- `writeRectDetailed` and `flush` make the same calls, but for the operation of the sink.
  unfoldable pub route_app :
      (S → DisplayStatus × S) → DisplayRouter S → RouteWriteResult × DisplayRouter S
  unfolding call_sink reconcile
  route_app call r =
      let (v, virtual') = call_sink call (virtual_on r.mode) r.virtual in
      let (p, physical') = call_sink call (physical_gets_app r.mode) r.physical in
      if is_output_ready r.state
      then (
        record {
          overall = overall v p;
          virtual_in_path = attached v;
          virtual_status = v;
          physical_status = p;
        },
        reconcile (record r { virtual = virtual'; physical = physical' }),
      )
      else (
        record {
          overall = DisplayStatus.not_enabled;
          virtual_in_path = false;
          virtual_status = none;
          physical_status = none;
        },
        r,
      )

  unfoldable pub write_rect_detailed :
      Rect → List ℕ → DisplayRouter S → RouteWriteResult × DisplayRouter S
  unfolding route_app
  write_rect_detailed rect pixels r = route_app (ops.present rect pixels) r

  unfoldable pub write_rect : Rect → List ℕ → DisplayRouter S → DisplayStatus × DisplayRouter S
  unfolding write_rect_detailed
  write_rect rect pixels r = let (out, r') = write_rect_detailed rect pixels r in (out.overall, r')

  unfoldable pub flush_all : DisplayRouter S → DisplayStatus × DisplayRouter S
  unfolding route_app
  flush_all r = let (out, r') = route_app ops.flush r in (out.overall, r')

  -- The call of the physical sink that both forms of `presentScene` end in.
  unfoldable pub present_physical :
      (S → DisplayStatus × S) → Option S → DisplayRouter S → DisplayStatus × DisplayRouter S
  unfolding reconcile
  present_physical call none r = (DisplayStatus.not_connected, reconcile r)
  present_physical call (some s) r =
      if ops.is_available s
      then ((call s).0, reconcile (record r { physical = some (call s).1 }))
      else (DisplayStatus.not_connected, reconcile r)

  unfoldable pub present_scene_rect :
      Rect → List ℕ → DisplayRouter S → DisplayStatus × DisplayRouter S
  unfolding present_physical
  present_scene_rect rect pixels r = elim r.mode [
    | DisplayRouteMode.split ↦
        (if is_output_ready r.state
          then present_physical (ops.present rect pixels) r.physical r
          else (DisplayStatus.not_enabled, r))
    | _ ↦ (DisplayStatus.not_supported, r)
  ]

  unfoldable pub present_scene : Scene → DisplayRouter S → DisplayStatus × DisplayRouter S
  unfolding present_physical
  present_scene scene r =
      if physical_gets_app r.mode
      then present_physical (ops.present_scene scene) r.physical r
      else (DisplayStatus.ok, r)

  unfoldable pub refresh_state : DisplayRouter S → DisplayRouter S
  unfolding reconcile
  refresh_state r = reconcile r
