-- ===== src/Protocol/RuntimeStats.antt =====
-- shared/protocol/runtime_stats.h and runtime_stats.cpp: the round-trip times of a session, and the ring
-- of the last diagnostics. A string is the list of its bytes.
pub mod Bounds
pub mod Ring
mod Tests
use espview.Base.{
  ℕ, ◌+◌, ◌-◌, ◌/◌, List, [], ◌∷◌, ◌++◌, Option, none, some, ltb, ◌==◌, if◌then◌else◌, length, drop,
}
use espview.Base.Word.{u32, u64}

pub record RttAggregate : Type 0 where
  pub last_ms : Option ℕ
  pub samples : ℕ
  pub min_ms : ℕ
  pub max_ms : ℕ
  pub avg_ms : ℕ
  pub sum_ms : ℕ

abbrev pub no_rtt : RttAggregate
no_rtt = record { last_ms = none; samples = 0; min_ms = 0; max_ms = 0; avg_ms = 0; sum_ms = 0 }

unfoldable pub record_rtt : ℕ → RttAggregate → RttAggregate
record_rtt rtt_ms a =
    let samples = u64 (a.samples + 1) in
    let sum = u64 (a.sum_ms + rtt_ms) in
    record {
      last_ms = some rtt_ms;
      samples = samples;
      min_ms = if samples == 1 then rtt_ms else (if ltb rtt_ms a.min_ms then rtt_ms else a.min_ms);
      max_ms = if samples == 1 then rtt_ms else (if ltb a.max_ms rtt_ms then rtt_ms else a.max_ms);
      avg_ms = u32 (sum / samples);
      sum_ms = sum;
    }

unfoldable pub reset_rtt : RttAggregate → RttAggregate
reset_rtt a = no_rtt

pub data Severity : Type 0 where
  info warning error critical : Severity

pub record DiagnosticEntry : Type 0 where
  pub timestamp_ms : ℕ
  pub severity : Severity
  pub source : List ℕ
  pub message : List ℕ

pub record DiagnosticsRing : Type 0 where
  pub capacity : ℕ
  pub items : List DiagnosticEntry

abbrev pub default_capacity : ℕ
default_capacity = 50

unfoldable pub make_ring : ℕ → DiagnosticsRing
make_ring capacity = record { capacity = if capacity == 0 then 1 else capacity; items = [] }

-- `push_back`, then `pop_front` while there are more than the capacity.
unfoldable pub push : DiagnosticEntry → DiagnosticsRing → DiagnosticsRing
push e r =
    let items = r.items ++ (e ∷ []) in record r { items = drop (length items - r.capacity) items }

unfoldable pub clear : DiagnosticsRing → DiagnosticsRing
clear r = record r { items = [] }

unfoldable pub last : List DiagnosticEntry → Option DiagnosticEntry
last [] = none
last (e ∷ es) = let rest = last es in if length es == 0 then some e else rest
