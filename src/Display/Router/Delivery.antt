-- ===== src/Display/Router/Delivery.antt =====
-- shared/display/display_router.cpp, `writeRectDetailed` and `flush`: which sinks an application's frame
-- reaches.
use espview.Base.{
  ◌≡◌, refl, Bool, true, false, Option, none, some, if◌then◌else◌, inl, inr, Bool-cases,
}
use espview.Display.Router.{
  DisplayStatus, DisplayRouteMode, RouterState, SinkOperations, DisplayRouter, RouteWriteResult,
  virtual_on, physical_gets_app, is_output_ready, attached, reconcile, call_sink, route_app,
}
use espview.Display.Router.Settling.{Settled, AllAvailable, reconcile-Settled}

-- The displays that the application's frames are for: the virtual and the physical one. While the router
-- is idle or switching they are for none.
abbrev pub frames_for : RouterState → DisplayRouteMode → Bool × Bool
frames_for RouterState.idle m = (false, false)
frames_for RouterState.switching m = (false, false)
frames_for RouterState.connected DisplayRouteMode.virtual_only = (true, false)
frames_for RouterState.connected DisplayRouteMode.physical_only = (false, true)
frames_for RouterState.connected DisplayRouteMode.mirror = (true, true)
frames_for RouterState.connected DisplayRouteMode.split = (true, false)
frames_for RouterState.degraded DisplayRouteMode.virtual_only = (true, false)
frames_for RouterState.degraded DisplayRouteMode.physical_only = (false, true)
frames_for RouterState.degraded DisplayRouteMode.mirror = (true, true)
frames_for RouterState.degraded DisplayRouteMode.split = (true, false)

-- The state afterwards: while the router is idle or switching what it was, and else settled again.
abbrev pub StateAfter : RouterState → RouterState → Type 0 → Type 0
StateAfter RouterState.idle state P = state ≡ RouterState.idle
StateAfter RouterState.switching state P = state ≡ RouterState.switching
StateAfter RouterState.connected state P = Settled state P
StateAfter RouterState.degraded state P = Settled state P

state_ready :
    (before state : RouterState) (P : Type 0)
    → is_output_ready before ≡ true
    → Settled state P
    → StateAfter before state P
state_ready RouterState.idle state P e s = cc
state_ready RouterState.switching state P e s = cc
state_ready RouterState.connected state P e s = s
state_ready RouterState.degraded state P e s = s

state_held :
    (before : RouterState) (P : Type 0)
    → is_output_ready before ≡ false
    → StateAfter before before P
state_held RouterState.idle P e = refl
state_held RouterState.switching P e = refl
state_held RouterState.connected P e = cc
state_held RouterState.degraded P e = cc

frames_ready :
    (state : RouterState) (m : DisplayRouteMode)
    → is_output_ready state ≡ true
    → frames_for state m ≡ (virtual_on m, physical_gets_app m)
frames_ready RouterState.idle m e = cc
frames_ready RouterState.switching m e = cc
frames_ready RouterState.connected DisplayRouteMode.virtual_only e = refl
frames_ready RouterState.connected DisplayRouteMode.physical_only e = refl
frames_ready RouterState.connected DisplayRouteMode.mirror e = refl
frames_ready RouterState.connected DisplayRouteMode.split e = refl
frames_ready RouterState.degraded DisplayRouteMode.virtual_only e = refl
frames_ready RouterState.degraded DisplayRouteMode.physical_only e = refl
frames_ready RouterState.degraded DisplayRouteMode.mirror e = refl
frames_ready RouterState.degraded DisplayRouteMode.split e = refl

frames_held :
    (state : RouterState) (m : DisplayRouteMode)
    → is_output_ready state ≡ false
    → frames_for state m ≡ (false, false)
frames_held RouterState.idle m e = refl
frames_held RouterState.switching m e = refl
frames_held RouterState.connected m e = cc
frames_held RouterState.degraded m e = cc

module _ {S Scene Rect : Type 0} (ops : SinkOperations S Scene Rect)
    (call : S → DisplayStatus × S) where
  -- A sink that frames are for is called once if it is there and available; else nothing happens to it.
  abbrev pub Passed : Bool → Option S → Option S → Option DisplayStatus → Type 0
  Passed true (some s) after status =
      if ops.is_available s
      then (after ≡ some (call s).1) × (status ≡ some (call s).0)
      else (after ≡ some s) × (status ≡ none)
  Passed true none after status = (after ≡ none) × (status ≡ none)
  Passed false sink after status = (after ≡ sink) × (status ≡ none)

  pub record Delivered (r : DisplayRouter S) (out : RouteWriteResult ops) (r' : DisplayRouter S)
      : Type 0 where
    pub virtual : Passed (frames_for r.state r.mode).0 r.virtual r'.virtual out.virtual_status
    pub physical : Passed (frames_for r.state r.mode).1 r.physical r'.physical out.physical_status
    pub in_path : out.virtual_in_path ≡ attached out.virtual_status
    pub state : StateAfter r.state r'.state (AllAvailable ops r')
    pub mode : r'.mode ≡ r.mode
    pub hooks : r'.hooks ≡ r.hooks

  taken :
      (b : Bool) (s : S)
      → let out : Option DisplayStatus × Option S =
          if b then (some (call s).0, some (call s).1) else (none, some s) in
        if b
        then (out.1 ≡ some (call s).1) × (out.0 ≡ some (call s).0)
        else (out.1 ≡ some s) × (out.0 ≡ none)
  taken true s = (refl, refl)
  taken false s = (refl, refl)

  call_sink-Passed :
      (wanted : Bool) (sink : Option S)
      → Passed wanted sink (call_sink ops call wanted sink).1 (call_sink ops call wanted sink).0
  unfolding call_sink
  call_sink-Passed true none = (refl, refl)
  call_sink-Passed true (some s) = taken (ops.is_available s) s
  call_sink-Passed false none = (refl, refl)
  call_sink-Passed false (some s) = (refl, refl)

  -- A frame, or the end of one, that the application sends, whatever the operation and the sinks' answers:
  -- while the router is idle or switching no sink is called; else the virtual sink is called once in
  -- every mode but `physical_only`, the physical one in `physical_only` and `mirror` alone, and not in
  -- `split`, each if it is there and available. A sink that is called is reported with its status;
  -- one that is not is left as it was and has none. Afterwards the router is connected if every
  -- display of the mode is available, and else degraded, but idle or switching if it was. Mode and hooks
  -- stay.
  pub route_app-Delivered :
      (r : DisplayRouter S) → Delivered r (route_app ops call r).0 (route_app ops call r).1
  unfolding route_app reconcile
  route_app-Delivered r = elim (Bool-cases (is_output_ready r.state)) [
    | inl e ↦
        (let frames = frames_ready r.state r.mode e in
          let r' : DisplayRouter S = record r {
            virtual = (call_sink ops call (virtual_on r.mode) r.virtual).1;
            physical = (call_sink ops call (physical_gets_app r.mode) r.physical).1;
          } in
          rw (route_app, e)
            (record {
              virtual = rw frames (call_sink-Passed (virtual_on r.mode) r.virtual);
              physical = rw frames (call_sink-Passed (physical_gets_app r.mode) r.physical);
              in_path = refl;
              state = state_ready r.state _ _ e (reconcile-Settled ops r');
              mode = refl;
              hooks = refl;
            }))
    | inr e ↦
        (let frames = frames_held r.state r.mode e in
          rw (route_app, e)
            (record {
              virtual = rw frames (refl, refl);
              physical = rw frames (refl, refl);
              in_path = refl;
              state = state_held r.state _ e;
              mode = refl;
              hooks = refl;
            }))
  ]
