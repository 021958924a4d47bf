-- ===== src/Oled/ReinitPolicy.antt =====
-- shared/oled/oled_recovery.h and oled_recovery.cpp: when a display that was lost may be set up again.
pub mod Cooldown
use espview.Base.{ℕ, ◌+◌, ◌*◌, Bool, true, false, ◌||◌, List, [], ◌∷◌, ltb, leb, if◌then◌else◌, min}
use espview.Base.Word.{u32, u64}

pub record Params : Type 0 where
  pub backoff_base_ms : ℕ
  pub backoff_max_ms : ℕ
  pub max_cycles : ℕ
  pub cooldown_ms : ℕ

abbrev pub default_params : Params
default_params = record {
  backoff_base_ms = 500;
  backoff_max_ms = 30000;
  max_cycles = 3;
  cooldown_ms = 30000;
}

pub record ReinitPolicy : Type 0 where
  pub params : Params
  pub backoff_ms : ℕ
  pub next_attempt_ms : ℕ
  pub cooldown_until_ms : ℕ
  pub cycles : ℕ

unfoldable pub init : Params → ReinitPolicy
init params = record {
  params = params;
  backoff_ms = params.backoff_base_ms;
  next_attempt_ms = 0;
  cooldown_until_ms = 0;
  cycles = 0;
}

unfoldable pub try_begin : ℕ → ReinitPolicy → Bool × ReinitPolicy
try_begin now p =
    if ltb now p.cooldown_until_ms || ltb now p.next_attempt_ms
    then (false, p)
    else (true, record p { next_attempt_ms = u64 (now + p.backoff_ms) })

unfoldable pub on_success : ℕ → ReinitPolicy → ReinitPolicy
on_success now p = record p {
  cycles = 0;
  backoff_ms = p.params.backoff_base_ms;
  next_attempt_ms = u64 (now + p.params.backoff_base_ms);
}

unfoldable pub on_failure : ℕ → ReinitPolicy → ReinitPolicy
on_failure now p =
    let cycles = u32 (p.cycles + 1) in
    if leb p.params.max_cycles cycles
    then record p {
      cooldown_until_ms = u64 (now + p.params.cooldown_ms);
      cycles = 0;
      backoff_ms = p.params.backoff_base_ms;
    }
    else record p {
      cycles = cycles;
      backoff_ms = min (u64 (p.backoff_ms * 2)) p.params.backoff_max_ms;
    }

-- The calls, each with its time.
pub data Input : Type 0 where
  begin success failure : ℕ → Input

unfoldable pub step : Input → ReinitPolicy → ReinitPolicy
step (Input.begin now) p = (try_begin now p).1
step (Input.success now) p = on_success now p
step (Input.failure now) p = on_failure now p

unfoldable pub steps : List Input → ReinitPolicy → ReinitPolicy
steps [] p = p
steps (i ∷ is) p = steps is (step i p)
