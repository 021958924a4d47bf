-- ===== src/Protocol/RuntimeStats/Bounds.antt =====
-- shared/protocol/runtime_stats.cpp: the average of the round-trip times, the least and the
-- greatest.
use espview.Base.{
  All, length, false, ℕ, ◌+◌, ◌-◌, ◌*◌, ◌/◌, ◌^◌, ◌<◌, ◌≤◌, ◌≡◌, refl, arith, List, [], ◌∷◌, ltb,
  ◌==◌, if◌then◌else◌,
}
use native.Mathlib.Nat.{mul-le-mul_left, le-div_iff_mul-le, div-le_of_le-mul}
use native.Mathlib.Decide.{dec_le}
use espview.Base.Word.{u32, u64}
use espview.Protocol.RuntimeStats.{RttAggregate, no_rtt, record_rtt}

-- The samples one after the other.
unfoldable pub record_all : List ℕ → RttAggregate → RttAggregate
record_all [] a = a
record_all (t ∷ ts) a = record_all ts (record_rtt t a)

-- The sum lies between the least and the greatest, each as often as there are samples.
pub record IsValid (a : RttAggregate) : Type 0 where
  pub above : a.samples * a.min_ms ≤ a.sum_ms
  pub below : a.sum_ms ≤ a.samples * a.max_ms
  pub word : a.max_ms < 2 ^ 32
  pub average : a.avg_ms ≡ u32 (a.sum_ms / a.samples)

scaled : (n x m t s : ℕ) → x ≤ m → x ≤ t → n * m ≤ s → (n + 1) * x ≤ s + t
scaled n x m t s hm ht h = omega (arith, mul-le-mul_left n hm)

scaled_up : (n x m t s : ℕ) → m ≤ x → t ≤ x → s ≤ n * m → s + t ≤ (n + 1) * x
scaled_up n x m t s hm ht h = omega (arith, mul-le-mul_left n hm)

-- Neither the number nor the sum wraps around below 2 ^ 32 samples.
sum_fits :
    (t : ℕ) (a : RttAggregate)
    → t < 2 ^ 32
    → a.samples + 1 < 2 ^ 32
    → IsValid a
    → a.sum_ms + t < 2 ^ 64
sum_fits t a w few v =
    let m : a.max_ms ≤ 2 ^ 32 - 1 = omega (arith, v.word) in
    omega (arith, v.below, mul-le-mul_left a.samples m)

record_rtt-IsValid :
    (t : ℕ) (a : RttAggregate)
    → t < 2 ^ 32
    → a.samples + 1 < 2 ^ 32
    → IsValid a
    → IsValid (record_rtt t a)
unfolding record_rtt
record_rtt-IsValid t a w few v =
    let more : u64 (a.samples + 1) ≡ a.samples + 1 = omega arith in
    let sum : u64 (a.sum_ms + t) ≡ a.sum_ms + t = omega (arith, sum_fits t a w few v) in
    rw (more, sum)
      (elim (dec_le a.samples 0) [
        | yes e ↦ record {
          above = ground arith;
          below = ground arith;
          word = ground arith;
          average = refl;
        }
        | no n ↦
            let later : (a.samples + 1 == 1) ≡ false = ground arith in
            record {
              above = rw later (
                  scaled a.samples (if ltb t a.min_ms then t else a.min_ms) a.min_ms t a.sum_ms
                    (ground arith) (ground arith) v.above);
              below = rw later (
                  scaled_up a.samples (if ltb a.max_ms t then t else a.max_ms) a.max_ms t a.sum_ms
                    (ground arith) (ground arith) v.below);
              word = ground arith;
              average = refl;
            }
      ])

record_rtt-samples :
    (t : ℕ) (a : RttAggregate) → a.samples + 1 < 2 ^ 32 → (record_rtt t a).samples ≡ a.samples + 1
unfolding record_rtt
record_rtt-samples t a few = omega arith

record_all-IsValid :
    (ts : List ℕ) (a : RttAggregate)
    → All (λ t. t < 2 ^ 32) ts
    → length ts + a.samples < 2 ^ 32
    → IsValid a
    → IsValid (record_all ts a)
unfolding record_all
record_all-IsValid [] a w few v = v
record_all-IsValid (t ∷ ts) a (w, ws) few v =
    let one = record_rtt-samples t a (omega arith) in
    record_all-IsValid ts (record_rtt t a) ws (omega arith)
      (record_rtt-IsValid t a w (omega arith) v)

record_all-samples :
    (ts : List ℕ) (a : RttAggregate)
    → length ts + a.samples < 2 ^ 32
    → (record_all ts a).samples ≡ length ts + a.samples
unfolding record_all
record_all-samples [] a few = omega arith
record_all-samples (t ∷ ts) a few =
    let one = record_rtt-samples t a (omega arith) in
    omega (arith, record_all-samples ts (record_rtt t a) (omega arith))

-- The average of an aggregate that has samples.
averaged :
    (a : RttAggregate) → 0 < a.samples → IsValid a → (a.min_ms ≤ a.avg_ms) × (a.avg_ms ≤ a.max_ms)
averaged a n v =
    let low : a.min_ms ≤ a.sum_ms / a.samples = (le-div_iff_mul-le n).1 (omega (arith, v.above)) in
    let high : a.sum_ms / a.samples ≤ a.max_ms = div-le_of_le-mul a.samples v.below in
    let same : a.avg_ms ≡ a.sum_ms / a.samples = omega (arith, v.average, v.word) in
    (omega (arith, same, low), omega (arith, same, high))

-- Of fewer than 2 ^ 32 round-trip times of 32 bits, one at least, recorded in a session: there are as many
-- samples, and the average lies between the least and the greatest.
pub record_all_bounds :
    (t : ℕ) (ts : List ℕ)
    → All (λ t. t < 2 ^ 32) (t ∷ ts)
    → length (t ∷ ts) < 2 ^ 32
    → let a = record_all (t ∷ ts) no_rtt in
      (a.samples ≡ length (t ∷ ts)) × (a.min_ms ≤ a.avg_ms) × (a.avg_ms ≤ a.max_ms)
record_all_bounds t ts w few =
    let a = record_all (t ∷ ts) no_rtt in
    let n = record_all-samples (t ∷ ts) no_rtt (omega arith) in
    let v =
      record_all-IsValid (t ∷ ts) no_rtt w (omega arith)
        (record { above = omega arith; below = omega arith; word = omega arith; average = refl }) in
    let (low, high) = averaged a (omega (arith, n)) v in (omega (arith, n), low, high)
