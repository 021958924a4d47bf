-- ===== src/Wifi/ScanTransaction/Balance.antt =====
-- shared/wifi/scan_transaction.cpp: suspensions against resumptions of the display.
use espview.Base.{
  ℕ, ◌+◌, ◌≡◌, refl, sym, ap, ◌∙◌, arith, Bool, true, false, not, List, [], ◌∷◌, ◌++◌,
  if◌then◌else◌, ltb, leb, ◌==◌, ◌-◌,
}
use espview.Wifi.ScanTransaction.{
  ScanPhase, Call, suspend_display, resume_display, ScanTransaction, Stepped, restore_display_once,
  restore_to, start, begin_in, begin, scan_started_in, on_scan_started, finish, scan_done_in,
  on_scan_done, timeout_in, on_timeout, on_disconnect, in_window, tick, Input, begin_call,
  scan_started, scan_done, timeout, disconnect, tick_call, step, steps,
}

-- The calls of `suspendDisplay` that answered yes, and those of `resumeDisplay`.
unfoldable pub suspensions : List Call → ℕ
suspensions [] = 0
suspensions (suspend_display true ∷ cs) = 1 + suspensions cs
suspensions (_ ∷ cs) = suspensions cs

unfoldable pub resumptions : List Call → ℕ
resumptions [] = 0
resumptions (resume_display ∷ cs) = 1 + resumptions cs
resumptions (_ ∷ cs) = resumptions cs

abbrev pub held : Bool → ℕ
held b = if b then 1 else 0

-- Whether the display is to be suspended in the phase.
abbrev pub holds : ScanPhase → Bool
holds ScanPhase.preparing = true
holds ScanPhase.display_suspended = true
holds ScanPhase.scanning = true
holds ScanPhase.collecting = true
holds ScanPhase.restoring = true
holds _ = false

-- The display is suspended in the phases that hold it, and in no other.
pub record IsValid (t : ScanTransaction) : Type 0 where
  pub suspended : t.suspended ≡ holds t.phase
  pub resume : t.callbacks.resume_display ≡ true

-- The calls of a step account for what the display was and is.
pub record Balanced (before : Bool) (s : Stepped) : Type 0 where
  pub account : held before + suspensions s.1 ≡ resumptions s.1 + held s.0.suspended
  pub valid : IsValid s.0

silent-Balanced : (t : ScanTransaction) → IsValid t → Balanced t.suspended (t, [])
unfolding suspensions resumptions
silent-Balanced t v = record { account = omega arith; valid = v }

-- The transaction in a final phase.
abbrev resting : ScanPhase → ScanTransaction → ScanTransaction
resting p t = record { phase = p; suspended = false; scan_start_ms = 0; callbacks = t.callbacks }

restore_by :
    (s : Bool) (p : ScanPhase) (t : ScanTransaction)
    → t.suspended ≡ s
    → t.callbacks.resume_display ≡ true
    → restore_to p t ≡ (resting p t, if s then resume_display ∷ [] else [])
unfolding restore_to restore_display_once
restore_by true p t e r = rw (restore_to, restore_display_once, e, r) refl
restore_by false p t e r = rw (restore_to, restore_display_once, e, r) refl

resting-Balanced :
    (s : Bool) (p : ScanPhase) (t : ScanTransaction)
    → holds p ≡ false
    → t.callbacks.resume_display ≡ true
    → Balanced s (resting p t, if s then resume_display ∷ [] else [])
unfolding suspensions resumptions
resting-Balanced true p t h r = record {
  account = refl;
  valid = record { suspended = sym h; resume = r };
}
resting-Balanced false p t h r = record {
  account = refl;
  valid = record { suspended = sym h; resume = r };
}

silent_at :
    (p : ScanPhase) (t : ScanTransaction) → t.phase ≡ p → IsValid t → Balanced (holds p) (t, [])
silent_at p t e v = rw (← e, ← v.suspended) (silent-Balanced t v)

-- What holds of both branches holds of the conditional.
if_elim :
    (b : Bool) (x y : Stepped) (before : Bool)
    → Balanced before x
    → Balanced before y
    → Balanced before (if b then x else y)
if_elim true x y before h k = h
if_elim false x y before h k = k

restore_to-Balanced :
    (p : ScanPhase) (t : ScanTransaction)
    → holds p ≡ false
    → t.callbacks.resume_display ≡ true
    → Balanced t.suspended (restore_to p t)
restore_to-Balanced p t h r =
    rw (restore_by t.suspended p t refl r) (resting-Balanced t.suspended p t h r)

started : Bool → ScanPhase → ScanTransaction → ScanTransaction
started s p t = record { phase = p; suspended = s; scan_start_ms = 0; callbacks = t.callbacks }

start-Balanced :
    (answer has : Bool) (t : ScanTransaction)
    → t.callbacks.suspend_display ≡ has
    → t.callbacks.resume_display ≡ true
    → (let (ok, t', calls) = start answer t in Balanced false (t', calls))
unfolding suspensions resumptions start
start-Balanced true true t e r =
    rw (start, e) (record { account = refl; valid = record { suspended = refl; resume = r } })
start-Balanced false true t e r =
    rw (start, e) (record { account = refl; valid = record { suspended = refl; resume = r } })
start-Balanced true false t e r =
    rw (start, e) (record { account = refl; valid = record { suspended = refl; resume = r } })
start-Balanced false false t e r =
    rw (start, e) (record { account = refl; valid = record { suspended = refl; resume = r } })

final : Bool → ScanPhase
final ok = if ok then ScanPhase.idle else ScanPhase.error

final-rests : (ok : Bool) → holds (final ok) ≡ false
unfolding final
final-rests true = refl
final-rests false = refl

finish-Balanced :
    (ok : Bool) (t : ScanTransaction)
    → t.callbacks.resume_display ≡ true
    → Balanced t.suspended (finish ok t)
unfolding finish final
finish-Balanced ok t r =
    let e : finish ok t ≡ (resting (final ok) t, if t.suspended then resume_display ∷ [] else []) =
      ap (λ (s : Stepped). (record s.0 { phase = final ok }, s.1))
        (restore_by t.suspended ScanPhase.restoring t refl r) in
    rw e (resting-Balanced t.suspended (final ok) t (final-rests ok) r)

begin_in-Balanced :
    (p : ScanPhase) (answer : Bool) (t : ScanTransaction)
    → t.phase ≡ p
    → IsValid t
    → (let (ok, t', calls) = begin_in p answer t in Balanced (holds p) (t', calls))
unfolding begin_in
begin_in-Balanced ScanPhase.idle answer t e v =
    start-Balanced answer t.callbacks.suspend_display t refl v.resume
begin_in-Balanced ScanPhase.error answer t e v =
    start-Balanced answer t.callbacks.suspend_display t refl v.resume
begin_in-Balanced ScanPhase.disconnected answer t e v =
    start-Balanced answer t.callbacks.suspend_display t refl v.resume
begin_in-Balanced ScanPhase.preparing answer t e v = silent_at ScanPhase.preparing t e v
begin_in-Balanced ScanPhase.display_suspended answer t e v =
    silent_at ScanPhase.display_suspended t e v
begin_in-Balanced ScanPhase.scanning answer t e v = silent_at ScanPhase.scanning t e v
begin_in-Balanced ScanPhase.collecting answer t e v = silent_at ScanPhase.collecting t e v
begin_in-Balanced ScanPhase.restoring answer t e v = silent_at ScanPhase.restoring t e v

scan_started_in-Balanced :
    (p : ScanPhase) (ok : Bool) (t : ScanTransaction)
    → t.phase ≡ p
    → IsValid t
    → Balanced t.suspended (scan_started_in p ok t)
unfolding scan_started_in suspensions resumptions
scan_started_in-Balanced ScanPhase.preparing false t e v =
    restore_to-Balanced ScanPhase.error t refl v.resume
scan_started_in-Balanced ScanPhase.preparing true t e v = record {
  account = omega arith;
  valid = record { suspended = v.suspended ∙ ap holds e; resume = v.resume };
}
scan_started_in-Balanced ScanPhase.idle true t e v = silent-Balanced t v
scan_started_in-Balanced ScanPhase.idle false t e v = silent-Balanced t v
scan_started_in-Balanced ScanPhase.display_suspended true t e v = silent-Balanced t v
scan_started_in-Balanced ScanPhase.display_suspended false t e v = silent-Balanced t v
scan_started_in-Balanced ScanPhase.scanning true t e v = silent-Balanced t v
scan_started_in-Balanced ScanPhase.scanning false t e v = silent-Balanced t v
scan_started_in-Balanced ScanPhase.collecting true t e v = silent-Balanced t v
scan_started_in-Balanced ScanPhase.collecting false t e v = silent-Balanced t v
scan_started_in-Balanced ScanPhase.restoring true t e v = silent-Balanced t v
scan_started_in-Balanced ScanPhase.restoring false t e v = silent-Balanced t v
scan_started_in-Balanced ScanPhase.error true t e v = silent-Balanced t v
scan_started_in-Balanced ScanPhase.error false t e v = silent-Balanced t v
scan_started_in-Balanced ScanPhase.disconnected true t e v = silent-Balanced t v
scan_started_in-Balanced ScanPhase.disconnected false t e v = silent-Balanced t v

scan_done_in-Balanced :
    (p : ScanPhase) (ok : Bool) (t : ScanTransaction)
    → IsValid t
    → Balanced t.suspended (scan_done_in p ok t)
unfolding scan_done_in
scan_done_in-Balanced ScanPhase.idle ok t v = silent-Balanced t v
scan_done_in-Balanced ScanPhase.preparing ok t v = silent-Balanced t v
scan_done_in-Balanced ScanPhase.display_suspended ok t v = finish-Balanced ok t v.resume
scan_done_in-Balanced ScanPhase.scanning ok t v = finish-Balanced ok t v.resume
scan_done_in-Balanced ScanPhase.collecting ok t v = silent-Balanced t v
scan_done_in-Balanced ScanPhase.restoring ok t v = silent-Balanced t v
scan_done_in-Balanced ScanPhase.error ok t v = silent-Balanced t v
scan_done_in-Balanced ScanPhase.disconnected ok t v = silent-Balanced t v

timeout_in-Balanced :
    (p : ScanPhase) (t : ScanTransaction) → IsValid t → Balanced t.suspended (timeout_in p t)
unfolding timeout_in
timeout_in-Balanced ScanPhase.idle t v = silent-Balanced t v
timeout_in-Balanced ScanPhase.preparing t v = restore_to-Balanced ScanPhase.error t refl v.resume
timeout_in-Balanced ScanPhase.display_suspended t v =
    restore_to-Balanced ScanPhase.error t refl v.resume
timeout_in-Balanced ScanPhase.scanning t v = restore_to-Balanced ScanPhase.error t refl v.resume
timeout_in-Balanced ScanPhase.collecting t v = restore_to-Balanced ScanPhase.error t refl v.resume
timeout_in-Balanced ScanPhase.restoring t v = silent-Balanced t v
timeout_in-Balanced ScanPhase.error t v = silent-Balanced t v
timeout_in-Balanced ScanPhase.disconnected t v = silent-Balanced t v

anchored-Balanced :
    (now_ms : ℕ) (t : ScanTransaction)
    → IsValid t
    → Balanced t.suspended (record t { scan_start_ms = now_ms }, [])
unfolding suspensions resumptions
anchored-Balanced now_ms t v = record {
  account = omega arith;
  valid = record { suspended = v.suspended; resume = v.resume };
}

tick-Balanced :
    (now_ms timeout_ms : ℕ) (t : ScanTransaction)
    → IsValid t
    → Balanced t.suspended (tick now_ms timeout_ms t)
unfolding tick on_timeout
tick-Balanced now_ms timeout_ms t v =
    if_elim (not (in_window t.phase)) _ _ _ (silent-Balanced t v) (
      if_elim (timeout_ms == 0) _ _ _ (silent-Balanced t v) (
        if_elim (t.scan_start_ms == 0) _ _ _ (anchored-Balanced now_ms t v) (
          if_elim (ltb now_ms t.scan_start_ms) _ _ _ (silent-Balanced t v) (
            if_elim (leb timeout_ms (now_ms - t.scan_start_ms)) _ _ _
              (timeout_in-Balanced t.phase t v) (silent-Balanced t v)))))

Balanced-from : {b b' : Bool} {s : Stepped} → b ≡ b' → Balanced b' s → Balanced b s
Balanced-from e h = rw e h

-- One call of any kind: the suspensions that succeeded before and in it are its resumptions and what
-- is held behind it, and the display is suspended exactly in the phases that hold it.
pub step-Balanced : (i : Input) (t : ScanTransaction) → IsValid t → Balanced t.suspended (step i t)
unfolding step begin on_scan_started on_scan_done on_timeout on_disconnect
step-Balanced (begin_call answer) t v =
    Balanced-from v.suspended (begin_in-Balanced t.phase answer t refl v)
step-Balanced (scan_started ok) t v = scan_started_in-Balanced t.phase ok t refl v
step-Balanced (scan_done ok) t v = scan_done_in-Balanced t.phase ok t v
step-Balanced timeout t v = timeout_in-Balanced t.phase t v
step-Balanced disconnect t v = restore_to-Balanced ScanPhase.disconnected t refl v.resume
step-Balanced (tick_call now_ms timeout_ms) t v = tick-Balanced now_ms timeout_ms t v

suspensions-append : (cs ds : List Call) → suspensions (cs ++ ds) ≡ suspensions cs + suspensions ds
unfolding suspensions
suspensions-append [] ds = omega arith
suspensions-append (suspend_display true ∷ cs) ds = omega (arith, suspensions-append cs ds)
suspensions-append (suspend_display false ∷ cs) ds = suspensions-append cs ds
suspensions-append (resume_display ∷ cs) ds = suspensions-append cs ds

resumptions-append : (cs ds : List Call) → resumptions (cs ++ ds) ≡ resumptions cs + resumptions ds
unfolding resumptions
resumptions-append [] ds = omega arith
resumptions-append (suspend_display answer ∷ cs) ds = resumptions-append cs ds
resumptions-append (resume_display ∷ cs) ds = omega (arith, resumptions-append cs ds)

-- Whatever calls come in whatever order: over all of them, each suspension that succeeded is resumed
-- exactly once, but for the one that is still held when the phase is one that holds the display.
pub steps-Balanced :
    (is : List Input) (t : ScanTransaction) → IsValid t → Balanced t.suspended (steps is t)
unfolding steps
steps-Balanced [] t v = silent-Balanced t v
steps-Balanced (i ∷ is) t v =
    let one = step-Balanced i t v in
    let rest = steps-Balanced is (step i t).0 one.valid in
    record {
      account = omega (
        arith,
        one.account,
        rest.account,
        suspensions-append (step i t).1 (steps is (step i t).0).1,
        resumptions-append (step i t).1 (steps is (step i t).0).1,
      );
      valid = rest.valid;
    }
