-- ===== src/Display/Router/Switching.antt =====
-- shared/display/display_router.cpp, `setMode`: what a change of the mode comes to.
use espview.Base.{
  ◌≡◌, refl, ◌⊎◌, inl, inr, Bool, true, false, not, ◌&&◌, List, [], ◌∷◌, ◌++◌, Option, none, some,
  if◌then◌else◌, Bool-cases,
}
use mathlib.Core.Path.{subst}
use espview.Display.Router.{
  DisplayStatus, DisplayRouteMode, SinkOperations, DisplayRouter, HookCall, stale_clear,
  full_resync, virtual_on, physical_on, attached, reconcile, switch_sink, missing, set_mode,
}
use espview.Display.Router.Settling.{
  UsesVirtual, UsesPhysical, Reflects, or-Reflects, Settled, AllAvailable, reconcile-Settled,
}

-- What the virtual and the physical sink are told, in order: to be disabled, and then, if the mode uses
-- it, to be enabled.
abbrev pub virtual_orders : DisplayRouteMode → List Bool
virtual_orders DisplayRouteMode.virtual_only = false ∷ true ∷ []
virtual_orders DisplayRouteMode.physical_only = false ∷ []
virtual_orders DisplayRouteMode.mirror = false ∷ true ∷ []
virtual_orders DisplayRouteMode.split = false ∷ true ∷ []

abbrev pub physical_orders : DisplayRouteMode → List Bool
physical_orders DisplayRouteMode.virtual_only = false ∷ []
physical_orders DisplayRouteMode.physical_only = false ∷ true ∷ []
physical_orders DisplayRouteMode.mirror = false ∷ true ∷ []
physical_orders DisplayRouteMode.split = false ∷ true ∷ []

-- The hooks that are set are called, the one that clears stale contents first.
abbrev pub hook_calls : (stale resync : Bool) → List HookCall
hook_calls true true = stale_clear ∷ full_resync ∷ []
hook_calls true false = stale_clear ∷ []
hook_calls false true = full_resync ∷ []
hook_calls false false = []

hook_calls_lem :
    (stale resync : Bool)
    → (if stale then stale_clear ∷ [] else []) ++ (if resync then full_resync ∷ [] else [])
      ≡ hook_calls stale resync
hook_calls_lem true true = refl
hook_calls_lem true false = refl
hook_calls_lem false true = refl
hook_calls_lem false false = refl

module _ {S Scene Rect : Type 0} (ops : SinkOperations S Scene Rect) where
  abbrev pub told : List Bool → S → S
  told [] s = s
  told (on ∷ ons) s = told ons (ops.set_enabled on s).1

  abbrev pub told_sink : List Bool → Option S → Option S
  told_sink ons none = none
  told_sink ons (some s) = some (told ons s)

  -- A display that the mode uses has no sink.
  abbrev pub IsMissing : DisplayRouteMode → DisplayRouter S → Type 0
  IsMissing m r = (UsesVirtual m × (r.virtual ≡ none)) ⊎ (UsesPhysical m × (r.physical ≡ none))

  -- What a change of mode comes to: the status, the router and the hooks that were called.
  pub data Switched (m : DisplayRouteMode) (r : DisplayRouter S)
      : DisplayStatus × DisplayRouter S × List HookCall → Type 0 where
    refused : IsMissing m r → Switched m r (DisplayStatus.invalid_param, r, [])
    switched :
        (r' : DisplayRouter S) (calls : List HookCall)
        → (¬ IsMissing m r)
        → r'.mode ≡ m
        → r'.hooks ≡ r.hooks
        → r'.virtual ≡ told_sink (virtual_orders m) r.virtual
        → r'.physical ≡ told_sink (physical_orders m) r.physical
        → Settled r'.state (AllAvailable ops r')
        → calls ≡ hook_calls r.hooks.stale_clear r.hooks.full_resync
        → Switched m r (DisplayStatus.ok, r', calls)

  absent-Reflects :
      (P : Type 0) (on : Bool) (sink : Option S)
      → Reflects on P
      → Reflects (on && not (attached sink)) (P × (sink ≡ none))
  absent-Reflects P true none p = (p, refl)
  absent-Reflects P true (some s) p = λ h. cc (h.1)
  absent-Reflects P false sink p = λ h. p h.0

  virtual_on-Reflects : (m : DisplayRouteMode) → Reflects (virtual_on m) (UsesVirtual m)
  virtual_on-Reflects DisplayRouteMode.virtual_only = tt
  virtual_on-Reflects DisplayRouteMode.physical_only = λ h. h
  virtual_on-Reflects DisplayRouteMode.mirror = tt
  virtual_on-Reflects DisplayRouteMode.split = tt

  physical_on-Reflects : (m : DisplayRouteMode) → Reflects (physical_on m) (UsesPhysical m)
  physical_on-Reflects DisplayRouteMode.virtual_only = λ h. h
  physical_on-Reflects DisplayRouteMode.physical_only = tt
  physical_on-Reflects DisplayRouteMode.mirror = tt
  physical_on-Reflects DisplayRouteMode.split = tt

  missing-Reflects :
      (m : DisplayRouteMode) (r : DisplayRouter S) → Reflects (missing ops m r) (IsMissing m r)
  missing-Reflects m r =
      or-Reflects _ _ (virtual_on m && not (attached r.virtual))
        (physical_on m && not (attached r.physical))
        (absent-Reflects (UsesVirtual m) (virtual_on m) r.virtual (virtual_on-Reflects m))
        (absent-Reflects (UsesPhysical m) (physical_on m) r.physical (physical_on-Reflects m))

  switch_sink-told :
      (on : Bool) (sink : Option S)
      → switch_sink ops on sink ≡ told_sink (if on then false ∷ true ∷ [] else false ∷ []) sink
  unfolding switch_sink
  switch_sink-told true none = refl
  switch_sink-told true (some s) = refl
  switch_sink-told false none = refl
  switch_sink-told false (some s) = refl

  virtual_told :
      (m : DisplayRouteMode) (sink : Option S)
      → switch_sink ops (virtual_on m) sink ≡ told_sink (virtual_orders m) sink
  virtual_told DisplayRouteMode.virtual_only sink = switch_sink-told true sink
  virtual_told DisplayRouteMode.physical_only sink = switch_sink-told false sink
  virtual_told DisplayRouteMode.mirror sink = switch_sink-told true sink
  virtual_told DisplayRouteMode.split sink = switch_sink-told true sink

  physical_told :
      (m : DisplayRouteMode) (sink : Option S)
      → switch_sink ops (physical_on m) sink ≡ told_sink (physical_orders m) sink
  physical_told DisplayRouteMode.virtual_only sink = switch_sink-told false sink
  physical_told DisplayRouteMode.physical_only sink = switch_sink-told true sink
  physical_told DisplayRouteMode.mirror sink = switch_sink-told true sink
  physical_told DisplayRouteMode.split sink = switch_sink-told true sink

  -- `setMode` refuses exactly if a display that the mode uses has no sink, and then changes nothing and calls
  -- no hook. Else it answers `ok`, and: the router is in the mode, with its hooks; each sink that is
  -- there was told to be disabled, and then, if the mode uses it, to be enabled, and nothing else; the
  -- router is connected if every display that the mode uses is then available, and else degraded;
  -- and the hooks that are set were called, once each and in order.
  pub set_mode-Switched :
      (m : DisplayRouteMode) (r : DisplayRouter S) → Switched m r (set_mode ops m r)
  unfolding set_mode reconcile
  set_mode-Switched m r =
      let r' : DisplayRouter S = record r {
        virtual = switch_sink ops (virtual_on m) r.virtual;
        physical = switch_sink ops (physical_on m) r.physical;
        mode = m;
      } in
      elim (Bool-cases (missing ops m r)) [
        | inl e ↦
            rw (set_mode, e)
              (refused (subst (λ b. Reflects b (IsMissing m r)) e (missing-Reflects m r)))
        | inr e ↦
            rw (set_mode, e)
              (switched _ _ (subst (λ b. Reflects b (IsMissing m r)) e (missing-Reflects m r)) refl
                refl (virtual_told m r.virtual) (physical_told m r.physical)
                (reconcile-Settled ops r') (hook_calls_lem r.hooks.stale_clear r.hooks.full_resync))
      ]
