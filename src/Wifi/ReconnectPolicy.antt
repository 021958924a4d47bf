-- ===== src/Wifi/ReconnectPolicy.antt =====
-- shared/wifi/reconnect_policy.h and reconnect_policy.cpp: how long to wait before the next attempt.
pub mod Delay
use espview.Base.{ℕ, ◌+◌, ◌-◌, ◌^◌, Bool, true, false, List, [], ◌∷◌, ltb, leb, if◌then◌else◌}
use espview.Base.Word.{u32, u64, ◌<<◌}

pub data FailureKind : Type 0 where
  transient terminal : FailureKind

abbrev pub transient_base_ms : ℕ
transient_base_ms = 100

abbrev pub transient_max_ms : ℕ
transient_max_ms = 5000

abbrev pub terminal_base_ms : ℕ
terminal_base_ms = 1000

abbrev pub terminal_max_ms : ℕ
terminal_max_ms = 30000

pub record ReconnectPolicy : Type 0 where
  pub last_kind : FailureKind
  pub attempts : ℕ
  pub next_delay_ms : ℕ
  pub stopped : Bool

abbrev pub new_policy : ReconnectPolicy
new_policy = record {
  last_kind = FailureKind.transient;
  attempts = 0;
  next_delay_ms = transient_base_ms;
  stopped = false;
}

unfoldable pub clamp_shift : ℕ → ℕ → ℕ → ℕ → ℕ
clamp_shift base_ms attempts max_shift max_ms =
    let shift = if ltb max_shift attempts then max_shift else attempts in
    let v = u64 (base_ms << shift) in if leb max_ms v then max_ms else u32 v

-- `attempts - 1` in 32 bits.
unfoldable pub delay_of : FailureKind → ℕ → ℕ
delay_of FailureKind.terminal attempts =
    clamp_shift terminal_base_ms (u32 (attempts + (2 ^ 32 - 1))) 5 terminal_max_ms
delay_of FailureKind.transient attempts =
    clamp_shift transient_base_ms (u32 (attempts + (2 ^ 32 - 1))) 6 transient_max_ms

unfoldable pub on_attempt : FailureKind → ReconnectPolicy → ReconnectPolicy
on_attempt kind p =
    let attempts = u32 (p.attempts + 1) in
    record p { last_kind = kind; attempts = attempts; next_delay_ms = delay_of kind attempts }

unfoldable pub on_success : ReconnectPolicy → ReconnectPolicy
on_success p = record p {
  attempts = 0;
  next_delay_ms = transient_base_ms;
  last_kind = FailureKind.transient;
}

unfoldable pub stop : ReconnectPolicy → ReconnectPolicy
stop p = record p { stopped = true }

pub data Input : Type 0 where
  attempt : FailureKind → Input
  success halt : Input

unfoldable pub step : Input → ReconnectPolicy → ReconnectPolicy
step (Input.attempt kind) p = on_attempt kind p
step Input.success p = on_success p
step Input.halt p = stop p

unfoldable pub steps : List Input → ReconnectPolicy → ReconnectPolicy
steps [] p = p
steps (i ∷ is) p = steps is (step i p)
