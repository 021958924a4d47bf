-- ===== src/Oled/Tests.antt =====
-- A display that fails three times, and the theorem applied to it.
use espview.Base.{◌≡◌, refl, arith, false, List, [], ◌∷◌, All}
use espview.Oled.ReinitPolicy.{default_params, init, on_failure, Input, steps}
use espview.Oled.ReinitPolicy.Cooldown.{
  time_of, Within, Unsuccessful, failures, answers, exhausted-refused,
}

abbrev two_failures : List Input
two_failures =
    Input.begin 0 ∷ Input.failure 10 ∷ Input.begin 600 ∷ Input.failure 610 ∷ Input.begin 1700 ∷ []

abbrev meanwhile : List Input
meanwhile = Input.begin 1800 ∷ Input.failure 2000 ∷ Input.success 3000 ∷ Input.begin 31709 ∷ []

meanwhile-Within : All (Within 1710 30000) meanwhile
unfolding time_of
meanwhile-Within = (
  record { after = omega arith; before = omega arith; clock = omega arith },
  (
    record { after = omega arith; before = omega arith; clock = omega arith },
    (
      record { after = omega arith; before = omega arith; clock = omega arith },
      (record { after = omega arith; before = omega arith; clock = omega arith }, tt),
    ),
  ),
)

unsuccessful : Unsuccessful two_failures
unfolding Unsuccessful
unsuccessful = tt

exhausted-refused_example :
    All
      (λ b. b ≡ false)
      (answers meanwhile (on_failure 1710 (steps two_failures (init default_params))))
unfolding init failures
exhausted-refused_example =
    exhausted-refused (init default_params) two_failures 1710 meanwhile refl unsuccessful refl
      (omega arith) (omega arith) meanwhile-Within
