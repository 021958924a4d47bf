-- ===== src/Oled/ReinitPolicy/Cooldown.antt =====
-- shared/oled/oled_recovery.cpp: attempts while the policy cools down.
use espview.Base.{
  ℕ, suc, ◌+◌, ◌^◌, ◌<◌, ◌≤◌, ◌≡◌, refl, sym, ap, ◌∙◌, arith, Bool, true, false, ◌||◌, List, [],
  ◌∷◌, All, ltb, leb, if_then,
}
use espview.Base.Word.{u32}
use espview.Oled.ReinitPolicy.{
  Params, ReinitPolicy, try_begin, on_success, on_failure, Input, step, steps,
}

unfoldable pub time_of : Input → ℕ
time_of (Input.begin now) = now
time_of (Input.success now) = now
time_of (Input.failure now) = now

unfoldable pub failures : List Input → ℕ
failures [] = 0
failures (Input.failure now ∷ is) = suc (failures is)
failures (Input.begin now ∷ is) = failures is
failures (Input.success now ∷ is) = failures is

unfoldable pub Unsuccessful : List Input → Type 0
Unsuccessful [] = Unit
Unsuccessful (Input.failure now ∷ is) = Unsuccessful is
Unsuccessful (Input.begin now ∷ is) = Unsuccessful is
Unsuccessful (Input.success now ∷ is) = ⊥

-- Whether each of the attempts may begin.
unfoldable pub answers : List Input → ReinitPolicy → List Bool
answers [] p = []
answers (Input.begin now ∷ is) p = (try_begin now p).0 ∷ answers is (step (Input.begin now) p)
answers (Input.success now ∷ is) p = answers is (step (Input.success now) p)
answers (Input.failure now ∷ is) p = answers is (step (Input.failure now) p)

-- From the time of a failure to the end of its cool-down, far from the end of the clock.
pub record Within (from cooldown : ℕ) (i : Input) : Type 0 where
  pub after : from ≤ time_of i
  pub before : time_of i < from + cooldown
  pub clock : time_of i + cooldown < 2 ^ 64

record Cooling (from cooldown : ℕ) (p : ReinitPolicy) : Type 0 where
  pub until : from + cooldown ≤ p.cooldown_until_ms
  pub same : p.params.cooldown_ms ≡ cooldown

try_begin-refused :
    (from cooldown now : ℕ) (p : ReinitPolicy)
    → now < from + cooldown
    → Cooling from cooldown p
    → try_begin now p ≡ (false, p)
unfolding try_begin
try_begin-refused from cooldown now p lt c =
    let early : ltb now p.cooldown_until_ms ≡ true = ground (arith, c.until) in rw early refl

on_failure-Cooling :
    (from cooldown now : ℕ) (p : ReinitPolicy)
    → Within from cooldown (Input.failure now)
    → Cooling from cooldown p
    → Cooling from cooldown (on_failure now p)
unfolding on_failure time_of
on_failure-Cooling from cooldown now p w c =
    if_then (Cooling from cooldown) (leb p.params.max_cycles (u32 (p.cycles + 1)))
      (λ _. record { until = omega (arith, c.same, w.after, w.clock); same = c.same })
      (λ _. record { until = c.until; same = c.same })

Cooling-refused :
    (is : List Input) (from cooldown : ℕ) (p : ReinitPolicy)
    → All (Within from cooldown) is
    → Cooling from cooldown p
    → All (λ b. b ≡ false) (answers is p)
unfolding answers step time_of on_success
Cooling-refused [] from cooldown p w c = tt
Cooling-refused (Input.begin now ∷ is) from cooldown p (w, ws) c =
    let no = try_begin-refused from cooldown now p w.before c in
    (ap (λ r. r.0) no, Cooling-refused is from cooldown (try_begin now p).1 ws (rw no c))
Cooling-refused (Input.success now ∷ is) from cooldown p (w, ws) c =
    Cooling-refused is from cooldown (on_success now p) ws
      (record { until = c.until; same = c.same })
Cooling-refused (Input.failure now ∷ is) from cooldown p (w, ws) c =
    Cooling-refused is from cooldown (on_failure now p) ws
      (on_failure-Cooling from cooldown now p w c)

-- A policy that has counted so many failures, with its parameters.
record Counts (params : Params) (n : ℕ) (p : ReinitPolicy) : Type 0 where
  pub cycles : p.cycles ≡ n
  pub same : p.params ≡ params

try_begin-Counts :
    (params : Params) (n now : ℕ) (p : ReinitPolicy)
    → Counts params n p
    → Counts params n (try_begin now p).1
unfolding try_begin
try_begin-Counts params n now p c =
    if_then (λ (r : Bool × ReinitPolicy). Counts params n r.1)
      (ltb now p.cooldown_until_ms || ltb now p.next_attempt_ms) (λ _. c)
      (λ _. record { cycles = c.cycles; same = c.same })

on_failure-Counts :
    (params : Params) (n now : ℕ) (p : ReinitPolicy)
    → suc n < params.max_cycles
    → params.max_cycles < 2 ^ 32
    → Counts params n p
    → Counts params (suc n) (on_failure now p)
unfolding on_failure
on_failure-Counts params n now p lt word c =
    let most : p.params.max_cycles ≡ params.max_cycles = ap (λ q. q.max_cycles) c.same in
    let fewer : leb p.params.max_cycles (u32 (p.cycles + 1)) ≡ false =
      ground (arith, c.cycles, most) in
    rw fewer (record { cycles = omega (arith, c.cycles); same = c.same })

steps-Counts :
    (is : List Input) (params : Params) (n : ℕ) (p : ReinitPolicy)
    → Unsuccessful is
    → n + failures is < params.max_cycles
    → params.max_cycles < 2 ^ 32
    → Counts params n p
    → Counts params (n + failures is) (steps is p)
unfolding Unsuccessful failures steps step
steps-Counts [] params n p u lt word c = record { cycles = omega (arith, c.cycles); same = c.same }
steps-Counts (Input.begin now ∷ is) params n p u lt word c =
    steps-Counts is params n (try_begin now p).1 u lt word (try_begin-Counts params n now p c)
steps-Counts (Input.failure now ∷ is) params n p u lt word c =
    let k : suc n + failures is ≡ n + suc (failures is) = omega arith in
    rw (sym k) (
      steps-Counts is params (suc n) (on_failure now p) u (omega arith) word
        (on_failure-Counts params n now p (omega arith) word c))
steps-Counts (Input.success now ∷ is) params n p u lt word c = elim u [ ]

on_failure-exhausted :
    (params : Params) (n now : ℕ) (p : ReinitPolicy)
    → params.max_cycles ≡ suc n
    → params.max_cycles < 2 ^ 32
    → now + params.cooldown_ms < 2 ^ 64
    → Counts params n p
    → Cooling now params.cooldown_ms (on_failure now p)
unfolding on_failure
on_failure-exhausted params n now p most word clock c =
    let there : p.params.max_cycles ≡ suc n = ap (λ q. q.max_cycles) c.same ∙ most in
    let cool : p.params.cooldown_ms ≡ params.cooldown_ms = ap (λ q. q.cooldown_ms) c.same in
    let over : leb p.params.max_cycles (u32 (p.cycles + 1)) ≡ true =
      ground (arith, c.cycles, there) in
    rw over (record { until = omega (arith, cool); same = cool })

-- Of a policy that has counted no failure, with a bound of 32 bits: when there
-- were attempts and failures, no success, and then the failure that makes them as many as the policy
-- allows, no attempt may begin from that time to the end of the cool-down, whatever else is called
-- meanwhile, as long as the clock does not come to its end.
pub exhausted-refused :
    (p : ReinitPolicy) (tries : List Input) (now : ℕ) (later : List Input)
    → p.cycles ≡ 0
    → Unsuccessful tries
    → p.params.max_cycles ≡ suc (failures tries)
    → p.params.max_cycles < 2 ^ 32
    → now + p.params.cooldown_ms < 2 ^ 64
    → All (Within now p.params.cooldown_ms) later
    → All (λ b. b ≡ false) (answers later (on_failure now (steps tries p)))
exhausted-refused p tries now later zero unsuccessful most word clock within =
    Cooling-refused later now p.params.cooldown_ms (on_failure now (steps tries p)) within (
      on_failure-exhausted p.params (0 + failures tries) now (steps tries p) (omega (arith, most))
        word clock
        (steps-Counts tries p.params 0 p unsuccessful (omega arith) word
          (record { cycles = zero; same = refl })))
