-- ===== src/Wifi/ScanTransaction.antt =====
-- shared/wifi/scan_transaction.h and scan_transaction.cpp: the display is suspended while the Wi-Fi
-- scans. The calls of the two callbacks are events; what `suspendDisplay` answers is an argument.
pub mod Balance
use espview.Base.{
  ℕ, ◌-◌, Bool, true, false, not, ◌&&◌, ◌||◌, List, [], ◌∷◌, ◌++◌, ltb, leb, ◌==◌, if◌then◌else◌,
}

pub data ScanPhase : Type 0 where
  idle preparing display_suspended scanning collecting restoring error disconnected : ScanPhase

-- Which callbacks are set.
pub record Callbacks : Type 0 where
  pub suspend_display : Bool
  pub resume_display : Bool

-- The calls of the callbacks, `suspendDisplay` with its answer.
pub data Call : Type 0 where
  suspend_display : Bool → Call
  resume_display : Call

pub record ScanTransaction : Type 0 where
  pub phase : ScanPhase
  pub suspended : Bool
  pub scan_start_ms : ℕ
  pub callbacks : Callbacks

abbrev pub init : Callbacks → ScanTransaction
init cb = record { phase = ScanPhase.idle; suspended = false; scan_start_ms = 0; callbacks = cb }

unfoldable pub set_callbacks : Callbacks → ScanTransaction → ScanTransaction
set_callbacks cb t = record t { callbacks = cb }

abbrev pub Stepped : Type 0
Stepped = ScanTransaction × List Call

unfoldable pub restore_display_once : ScanTransaction → Stepped
restore_display_once t =
    if t.suspended
    then (
      record t { suspended = false },
      if t.callbacks.resume_display then resume_display ∷ [] else [],
    )
    else (t, [])

abbrev pub reset_window_clock : ScanTransaction → ScanTransaction
reset_window_clock t = record t { scan_start_ms = 0 }

-- To a phase, the display restored on the way.
unfoldable pub restore_to : ScanPhase → ScanTransaction → Stepped
unfolding restore_display_once
restore_to p t =
    let (t', calls) = restore_display_once (record t { phase = p }) in
    (reset_window_clock t', calls)

-- `begin` from a phase that may begin; `answer` is what `suspendDisplay` returns if it is called.
unfoldable pub start : Bool → ScanTransaction → Bool × ScanTransaction × List Call
start answer t =
    let preparing : Bool → ScanPhase → ScanTransaction =
      λ s p. record t { phase = p; suspended = s; scan_start_ms = 0 } in
    let calls = if t.callbacks.suspend_display then suspend_display answer ∷ [] else [] in
    if t.callbacks.suspend_display && answer
    then (true, preparing true ScanPhase.preparing, calls)
    else (false, preparing false ScanPhase.error, calls)

unfoldable pub begin_in : ScanPhase → Bool → ScanTransaction → Bool × ScanTransaction × List Call
unfolding start
begin_in ScanPhase.idle answer t = start answer t
begin_in ScanPhase.error answer t = start answer t
begin_in ScanPhase.disconnected answer t = start answer t
begin_in _ answer t = (false, t, [])

unfoldable pub begin : Bool → ScanTransaction → Bool × ScanTransaction × List Call
unfolding begin_in
begin answer t = begin_in t.phase answer t

unfoldable pub scan_started_in : ScanPhase → Bool → ScanTransaction → Stepped
unfolding restore_to
scan_started_in ScanPhase.preparing false t = restore_to ScanPhase.error t
scan_started_in ScanPhase.preparing true t =
    (record t { phase = ScanPhase.display_suspended; scan_start_ms = 0 }, [])
scan_started_in _ suspended_ok t = (t, [])

unfoldable pub on_scan_started : Bool → ScanTransaction → Stepped
unfolding scan_started_in
on_scan_started suspended_ok t = scan_started_in t.phase suspended_ok t

-- The display is restored in the phase `restoring`, and the phase that remains comes after.
unfoldable pub finish : Bool → ScanTransaction → Stepped
unfolding restore_to
finish ok t =
    let (t', calls) = restore_to ScanPhase.restoring t in
    (record t' { phase = if ok then ScanPhase.idle else ScanPhase.error }, calls)

unfoldable pub scan_done_in : ScanPhase → Bool → ScanTransaction → Stepped
unfolding finish
scan_done_in ScanPhase.display_suspended ok t = finish ok t
scan_done_in ScanPhase.scanning ok t = finish ok t
scan_done_in _ ok t = (t, [])

unfoldable pub on_scan_done : Bool → ScanTransaction → Stepped
unfolding scan_done_in
on_scan_done ok t = scan_done_in t.phase ok t

unfoldable pub timeout_in : ScanPhase → ScanTransaction → Stepped
unfolding restore_to
timeout_in ScanPhase.preparing t = restore_to ScanPhase.error t
timeout_in ScanPhase.display_suspended t = restore_to ScanPhase.error t
timeout_in ScanPhase.scanning t = restore_to ScanPhase.error t
timeout_in ScanPhase.collecting t = restore_to ScanPhase.error t
timeout_in _ t = (t, [])

unfoldable pub on_timeout : ScanTransaction → Stepped
unfolding timeout_in
on_timeout t = timeout_in t.phase t

unfoldable pub on_disconnect : ScanTransaction → Stepped
unfolding restore_to
on_disconnect t = restore_to ScanPhase.disconnected t

abbrev pub in_window : ScanPhase → Bool
in_window ScanPhase.display_suspended = true
in_window ScanPhase.scanning = true
in_window ScanPhase.collecting = true
in_window _ = false

unfoldable pub tick : ℕ → ℕ → ScanTransaction → Stepped
unfolding on_timeout
tick now_ms timeout_ms t =
    if not (in_window t.phase)
    then (t, [])
    else if timeout_ms == 0
    then (t, [])
    else if t.scan_start_ms == 0
    then (record t { scan_start_ms = now_ms }, [])
    else if ltb now_ms t.scan_start_ms
    then (t, [])
    else if leb timeout_ms (now_ms - t.scan_start_ms)
    then on_timeout t
    else (t, [])

-- The calls that the driver makes.
pub data Input : Type 0 where
  begin_call : Bool → Input
  scan_started scan_done : Bool → Input
  timeout disconnect : Input
  tick_call : ℕ → ℕ → Input

unfoldable pub step : Input → ScanTransaction → Stepped
unfolding begin on_scan_started on_scan_done on_timeout on_disconnect tick
step (begin_call answer) t = let (ok, t', calls) = begin answer t in (t', calls)
step (scan_started ok) t = on_scan_started ok t
step (scan_done ok) t = on_scan_done ok t
step timeout t = on_timeout t
step disconnect t = on_disconnect t
step (tick_call now_ms timeout_ms) t = tick now_ms timeout_ms t

unfoldable pub steps : List Input → ScanTransaction → Stepped
unfolding step
steps [] t = (t, [])
steps (i ∷ is) t =
    let (t', calls) = step i t in let (t'', more) = steps is t' in (t'', calls ++ more)
