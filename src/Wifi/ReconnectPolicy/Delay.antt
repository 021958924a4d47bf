-- ===== src/Wifi/ReconnectPolicy/Delay.antt =====
-- shared/wifi/reconnect_policy.cpp: the delay against a doubling without a bound on its shift.
use espview.Base.{
  ℕ, zero, suc, ◌+◌, ◌-◌, ◌*◌, ◌^◌, ◌<◌, ◌≤◌, ◌≡◌, refl, ap, ◌∙◌, arith, Bool, true, false, List,
  [], ◌∷◌, length, ltb, min,
}
use espview.Base.Bits.{double_pow}
use espview.Base.Word.{u32}
use espview.Wifi.ReconnectPolicy.{
  FailureKind, ReconnectPolicy, new_policy, Input, clamp_shift, delay_of, step, steps, on_attempt,
  on_success, stop,
}

unfoldable pub base_of : FailureKind → ℕ
base_of FailureKind.transient = 100
base_of FailureKind.terminal = 1000

unfoldable pub max_of : FailureKind → ℕ
max_of FailureKind.transient = 5000
max_of FailureKind.terminal = 30000

-- The wait after so many failures in a row, of which the last has this kind: the base, doubled for each
-- failure after the first, up to the kind's maximum.
unfoldable pub wait : FailureKind → ℕ → ℕ
wait kind zero = 100
wait kind (suc n) = min (max_of kind) (base_of kind * 2 ^ n)

-- What the calls amount to: the failures since the last success, the last one's kind, and whether a
-- call stopped the retries.
pub record Past : Type 0 where
  pub failures : ℕ
  pub kind : FailureKind
  pub halted : Bool

abbrev pub no_past : Past
no_past = record { failures = 0; kind = FailureKind.transient; halted = false }

unfoldable pub recall : Input → Past → Past
recall (Input.attempt kind) h = record h { failures = suc h.failures; kind = kind }
recall Input.success h = record h { failures = 0; kind = FailureKind.transient }
recall Input.halt h = record h { halted = true }

unfoldable pub recall_all : List Input → Past → Past
recall_all [] h = h
recall_all (i ∷ is) h = recall_all is (recall i h)

six_doublings : (n : ℕ) → 2 ^ suc (suc (suc (suc (suc (suc n))))) ≡ 64 * 2 ^ n
six_doublings n = omega (
  arith,
  double_pow n,
  double_pow (suc n),
  double_pow (suc (suc n)),
  double_pow (suc (suc (suc n))),
  double_pow (suc (suc (suc (suc n)))),
  double_pow (suc (suc (suc (suc (suc n))))),
)

five_doublings : (n : ℕ) → 2 ^ suc (suc (suc (suc (suc n)))) ≡ 32 * 2 ^ n
five_doublings n = omega (
  arith,
  double_pow n,
  double_pow (suc n),
  double_pow (suc (suc n)),
  double_pow (suc (suc (suc n))),
  double_pow (suc (suc (suc (suc n)))),
)

pow-positive : (n : ℕ) → 0 < 2 ^ n
pow-positive zero = omega arith
pow-positive (suc n) = omega (arith, double_pow n, pow-positive n)

transient_most : (n : ℕ) → clamp_shift 100 (suc (suc (suc (suc (suc (suc n)))))) 6 5000 ≡ 5000
unfolding clamp_shift
transient_most zero = refl
transient_most (suc n) =
    let deep : ltb 6 (suc (suc (suc (suc (suc (suc (suc n))))))) ≡ true = ground arith in
    rw deep refl

terminal_most : (n : ℕ) → clamp_shift 1000 (suc (suc (suc (suc (suc n))))) 5 30000 ≡ 30000
unfolding clamp_shift
terminal_most zero = refl
terminal_most (suc n) =
    let deep : ltb 5 (suc (suc (suc (suc (suc (suc n)))))) ≡ true = ground arith in rw deep refl

transient_wait : (n : ℕ) → clamp_shift 100 n 6 5000 ≡ min 5000 (100 * 2 ^ n)
unfolding clamp_shift
transient_wait zero = refl
transient_wait (suc zero) = refl
transient_wait (suc (suc zero)) = refl
transient_wait (suc (suc (suc zero))) = refl
transient_wait (suc (suc (suc (suc zero)))) = refl
transient_wait (suc (suc (suc (suc (suc zero))))) = refl
transient_wait (suc (suc (suc (suc (suc (suc n)))))) =
    omega (arith, transient_most n, six_doublings n, pow-positive n)

terminal_wait : (n : ℕ) → clamp_shift 1000 n 5 30000 ≡ min 30000 (1000 * 2 ^ n)
unfolding clamp_shift
terminal_wait zero = refl
terminal_wait (suc zero) = refl
terminal_wait (suc (suc zero)) = refl
terminal_wait (suc (suc (suc zero))) = refl
terminal_wait (suc (suc (suc (suc zero)))) = refl
terminal_wait (suc (suc (suc (suc (suc n))))) =
    omega (arith, terminal_most n, five_doublings n, pow-positive n)

delay_of-wait :
    (kind : FailureKind) (n : ℕ) → n + 1 < 2 ^ 32 → delay_of kind (suc n) ≡ wait kind (suc n)
unfolding delay_of wait base_of max_of
delay_of-wait FailureKind.transient n lt =
    let less : u32 (suc n + (2 ^ 32 - 1)) ≡ n = omega arith in rw less (transient_wait n)
delay_of-wait FailureKind.terminal n lt =
    let less : u32 (suc n + (2 ^ 32 - 1)) ≡ n = omega arith in rw less (terminal_wait n)

-- The policy is what the past makes it.
pub record Agrees (h : Past) (p : ReconnectPolicy) : Type 0 where
  pub attempts : p.attempts ≡ h.failures
  pub last_kind : p.last_kind ≡ h.kind
  pub next_delay_ms : p.next_delay_ms ≡ wait h.kind h.failures
  pub stopped : p.stopped ≡ h.halted

step-Agrees :
    (i : Input) (h : Past) (p : ReconnectPolicy)
    → h.failures + 1 < 2 ^ 32
    → Agrees h p
    → Agrees (recall i h) (step i p)
unfolding recall step on_attempt on_success stop wait
step-Agrees (Input.attempt kind) h p lt a =
    let more : u32 (p.attempts + 1) ≡ suc h.failures = omega (arith, a.attempts) in
    record {
      attempts = more;
      last_kind = refl;
      next_delay_ms = ap (delay_of kind) more ∙ delay_of-wait kind h.failures lt;
      stopped = a.stopped;
    }
step-Agrees Input.success h p lt a = record {
  attempts = refl;
  last_kind = refl;
  next_delay_ms = refl;
  stopped = a.stopped;
}
step-Agrees Input.halt h p lt a = record {
  attempts = a.attempts;
  last_kind = a.last_kind;
  next_delay_ms = a.next_delay_ms;
  stopped = refl;
}

recall-failures : (i : Input) (h : Past) → (recall i h).failures ≤ h.failures + 1
unfolding recall
recall-failures (Input.attempt kind) h = omega arith
recall-failures Input.success h = omega arith
recall-failures Input.halt h = omega arith

steps-Agrees_from :
    (is : List Input) (h : Past) (p : ReconnectPolicy)
    → h.failures + length is < 2 ^ 32
    → Agrees h p
    → Agrees (recall_all is h) (steps is p)
unfolding recall_all steps
steps-Agrees_from [] h p lt a = a
steps-Agrees_from (i ∷ is) h p lt a =
    steps-Agrees_from is (recall i h) (step i p) (omega (arith, recall-failures i h))
      (step-Agrees i h p (omega arith) a)

-- After fewer than 2 ^ 32 calls of a new policy: it has counted the failures since the last success, it
-- keeps the last one's kind, its delay is that kind's base, doubled for each failure after the first, up
-- to the kind's maximum, or the 100 ms of the beginning if none failed since, and it is stopped if and
-- only if it was once told to stop.
pub steps-Agrees :
    (is : List Input) → length is < 2 ^ 32 → Agrees (recall_all is no_past) (steps is new_policy)
unfolding wait
steps-Agrees is lt =
    steps-Agrees_from is no_past new_policy (omega arith)
      (record { attempts = refl; last_kind = refl; next_delay_ms = refl; stopped = refl })
