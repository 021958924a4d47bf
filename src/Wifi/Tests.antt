-- ===== src/Wifi/Tests.antt =====
-- A scan that times out, and the theorem applied to it.
use espview.Base.{arith, ◌≡◌, refl, true, false, List, [], ◌∷◌}
use espview.Wifi.ScanTransaction.{
  ScanTransaction, init, Input, begin_call, scan_started, scan_done, timeout, tick_call, steps,
  suspend_display, resume_display,
}
use espview.Wifi.ReconnectPolicy
use espview.Wifi.ReconnectPolicy.{FailureKind, new_policy}
use espview.Wifi.ReconnectPolicy.Delay.{Agrees, recall_all, no_past, steps-Agrees}
use espview.Wifi.ScanTransaction.Balance.{IsValid, Balanced, steps-Balanced}

abbrev transaction : ScanTransaction
transaction = init (record { suspend_display = true; resume_display = true })

abbrev late_scan : List Input
late_scan =
    begin_call true
    ∷ scan_started true
    ∷ tick_call 100 500
    ∷ tick_call 700 500
    ∷ timeout
    ∷ scan_done true
    ∷ []

late_scan_calls : (steps late_scan transaction).1 ≡ suspend_display true ∷ (resume_display ∷ [])
unfolding steps
late_scan_calls = refl

transaction-IsValid : IsValid transaction
transaction-IsValid = record { suspended = refl; resume = refl }

steps-Balanced_example : Balanced false (steps late_scan transaction)
steps-Balanced_example = steps-Balanced late_scan transaction transaction-IsValid

abbrev some_calls : List ReconnectPolicy.Input
some_calls =
    ReconnectPolicy.Input.success
    ∷ ReconnectPolicy.Input.attempt FailureKind.transient
    ∷ ReconnectPolicy.Input.attempt FailureKind.transient
    ∷ ReconnectPolicy.Input.attempt FailureKind.terminal
    ∷ ReconnectPolicy.Input.halt
    ∷ []

some_calls_delay : (ReconnectPolicy.steps some_calls new_policy).next_delay_ms ≡ 4000
unfolding ReconnectPolicy.steps ReconnectPolicy.step ReconnectPolicy.stop ReconnectPolicy.on_attempt
    ReconnectPolicy.delay_of ReconnectPolicy.clamp_shift ReconnectPolicy.on_success
some_calls_delay = refl

steps-Agrees_example :
    Agrees (recall_all some_calls no_past) (ReconnectPolicy.steps some_calls new_policy)
steps-Agrees_example = steps-Agrees some_calls (ground arith)
