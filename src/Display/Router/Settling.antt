-- ===== src/Display/Router/Settling.antt =====
-- shared/display/display_router.cpp, `reconcileStateLocked`: the state that a mode and its sinks give.
use espview.Base.{
  ◌≡◌, refl, ◌⊎◌, inl, inr, Bool, true, false, not, ◌&&◌, ◌||◌, Option, none, some, if◌then◌else◌,
}
use espview.Display.Router.{
  DisplayRouteMode, RouterState, SinkOperations, DisplayRouter, virtual_on, physical_on, available,
  reconcile,
}

-- The modes that show anything on a display.
abbrev pub UsesVirtual : DisplayRouteMode → Type 0
UsesVirtual DisplayRouteMode.virtual_only = Unit
UsesVirtual DisplayRouteMode.physical_only = ⊥
UsesVirtual DisplayRouteMode.mirror = Unit
UsesVirtual DisplayRouteMode.split = Unit

abbrev pub UsesPhysical : DisplayRouteMode → Type 0
UsesPhysical DisplayRouteMode.virtual_only = ⊥
UsesPhysical DisplayRouteMode.physical_only = Unit
UsesPhysical DisplayRouteMode.mirror = Unit
UsesPhysical DisplayRouteMode.split = Unit

-- A test that says whether a statement holds.
abbrev pub Reflects : Bool → Type 0 → Type 0
Reflects true P = P
Reflects false P = ¬ P

pub and-Reflects :
    (P Q : Type 0) (a b : Bool) → Reflects a P → Reflects b Q → Reflects (a && b) (P × Q)
and-Reflects P Q true true p q = (p, q)
and-Reflects P Q true false p q = λ h. q h.1
and-Reflects P Q false b p q = λ h. p h.0

pub or-Reflects :
    (P Q : Type 0) (a b : Bool) → Reflects a P → Reflects b Q → Reflects (a || b) (P ⊎ Q)
or-Reflects P Q true b p q = inl p
or-Reflects P Q false true p q = inr q
or-Reflects P Q false false p q = λ h. elim h [ inl x ↦ p x | inr y ↦ q y ]

needed-Reflects : (P : Type 0) (b : Bool) → Reflects b P → Reflects b (Unit {0} → P)
needed-Reflects P true p = λ _. p
needed-Reflects P false p = λ h. p (h tt)

-- Connected if this holds, and else degraded.
abbrev pub Settled : RouterState → Type 0 → Type 0
Settled state P = ((state ≡ RouterState.connected) × P) ⊎ ((state ≡ RouterState.degraded) × (¬ P))

settled :
    (P : Type 0) (b : Bool)
    → Reflects b P
    → Settled (if b then RouterState.connected else RouterState.degraded) P
settled P true p = inl (refl, p)
settled P false p = inr (refl, p)

module _ {S Scene Rect : Type 0} (ops : SinkOperations S Scene Rect) where
  abbrev pub IsAvailable : Option S → Type 0
  IsAvailable none = ⊥
  IsAvailable (some s) = ops.is_available s ≡ true

  -- Every display that the mode uses is there and available.
  abbrev pub AllAvailable : DisplayRouter S → Type 0
  AllAvailable r =
      (UsesVirtual r.mode → IsAvailable r.virtual) × (UsesPhysical r.mode → IsAvailable r.physical)

  is_true-Reflects : (b : Bool) → Reflects b (b ≡ true)
  is_true-Reflects true = refl
  is_true-Reflects false = λ h. cc

  available-Reflects : (sink : Option S) → Reflects (available ops sink) (IsAvailable sink)
  available-Reflects none = λ h. h
  available-Reflects (some s) = is_true-Reflects (ops.is_available s)

  virtual-Reflects :
      (m : DisplayRouteMode) (sink : Option S)
      → Reflects (not (virtual_on m) || available ops sink) (UsesVirtual m → IsAvailable sink)
  virtual-Reflects DisplayRouteMode.physical_only sink = λ h. absurd h
  virtual-Reflects DisplayRouteMode.virtual_only sink =
      needed-Reflects (IsAvailable sink) (available ops sink) (available-Reflects sink)
  virtual-Reflects DisplayRouteMode.mirror sink =
      needed-Reflects (IsAvailable sink) (available ops sink) (available-Reflects sink)
  virtual-Reflects DisplayRouteMode.split sink =
      needed-Reflects (IsAvailable sink) (available ops sink) (available-Reflects sink)

  physical-Reflects :
      (m : DisplayRouteMode) (sink : Option S)
      → Reflects (not (physical_on m) || available ops sink) (UsesPhysical m → IsAvailable sink)
  physical-Reflects DisplayRouteMode.virtual_only sink = λ h. absurd h
  physical-Reflects DisplayRouteMode.physical_only sink =
      needed-Reflects (IsAvailable sink) (available ops sink) (available-Reflects sink)
  physical-Reflects DisplayRouteMode.mirror sink =
      needed-Reflects (IsAvailable sink) (available ops sink) (available-Reflects sink)
  physical-Reflects DisplayRouteMode.split sink =
      needed-Reflects (IsAvailable sink) (available ops sink) (available-Reflects sink)

  pub reconcile-Settled : (r : DisplayRouter S) → Settled (reconcile ops r).state (AllAvailable r)
  unfolding reconcile
  reconcile-Settled r = settled _ _ (
      and-Reflects _ _ (not (virtual_on r.mode) || available ops r.virtual)
        (not (physical_on r.mode) || available ops r.physical) (virtual-Reflects r.mode r.virtual)
        (physical-Reflects r.mode r.physical))
