-- ===== src/Input/Policy.antt =====
-- shared/input/input_policy.h: which key events are sent, the steps of the wheel, and the throttle of
-- the moves, with the call's three outputs as an optional point.
pub mod Latest
use espview.Base.{
  ℕ, zero, suc, ◌+◌, ◌-◌, ◌/◌, ◌^◌, Bool, true, false, not, ◌&&◌, List, [], ◌∷◌, Option, none, some,
  ltb, leb, if◌then◌else◌,
}
use espview.Base.Int.{ℤ, pos, negsuc}
use espview.Base.Word.{u64}

abbrev negated : ℕ → ℤ
negated zero = pos 0
negated (suc n) = negsuc n

-- The division truncates towards zero; the result is in the range of `int8_t`.
unfoldable pub normalize_wheel_delta : ℤ → ℤ
normalize_wheel_delta (pos n) = let steps = n / 120 in pos (if ltb 127 steps then 127 else steps)
normalize_wheel_delta (negsuc n) =
    let steps = (n + 1) / 120 in negated (if ltb 128 steps then 128 else steps)

abbrev pub min_mouse_move_interval_ms : ℕ
min_mouse_move_interval_ms = 16

unfoldable pub accept_key : Bool → Bool → Bool
accept_key down auto_repeat = not (down && auto_repeat)

pub record Point : Type 0 where
  pub x : ℕ
  pub y : ℕ
  pub buttons : ℕ

pub record MouseMoveThrottle : Type 0 where
  pub min_interval_ms : ℕ
  pub last_sent_ms : ℕ
  pub has_pending : Bool
  pub pending : Point

abbrev pub init : ℕ → MouseMoveThrottle
init interval = record {
  min_interval_ms = interval;
  last_sent_ms = 0;
  has_pending = false;
  pending = record { x = 0; y = 0; buttons = 0 };
}

unfoldable pub flush_pending : ℕ → MouseMoveThrottle → MouseMoveThrottle × Option Point
flush_pending now_ms t =
    if not t.has_pending
    then (t, none)
    else (record t { has_pending = false; last_sent_ms = now_ms }, some t.pending)

unfoldable pub accept_move : ℕ → Point → MouseMoveThrottle → MouseMoveThrottle × Option Point
unfolding flush_pending
accept_move now_ms p t =
    let t' : MouseMoveThrottle = record t { pending = p; has_pending = true } in
    if leb t.min_interval_ms (u64 (now_ms + 2 ^ 64 - t.last_sent_ms))
    then flush_pending now_ms t'
    else (t', none)

unfoldable pub reset : MouseMoveThrottle → MouseMoveThrottle
reset t = record t { has_pending = false; last_sent_ms = 0 }

-- The calls, each with its time where it has one.
pub data Call : Type 0 where
  move : ℕ → Point → Call
  tick : ℕ → Call
  restart : Call

unfoldable pub step : Call → MouseMoveThrottle → MouseMoveThrottle × Option Point
unfolding accept_move flush_pending reset
step (move now_ms p) t = accept_move now_ms p t
step (tick now_ms) t = flush_pending now_ms t
step restart t = (reset t, none)

abbrev pub with_sent : Option Point → List Point → List Point
with_sent none rest = rest
with_sent (some p) rest = p ∷ rest

-- The points that are sent, in order.
unfoldable pub steps : List Call → MouseMoveThrottle → MouseMoveThrottle × List Point
unfolding step
steps [] t = (t, [])
steps (c ∷ cs) t =
    let (t', sent) = step c t in let (t'', rest) = steps cs t' in (t'', with_sent sent rest)
