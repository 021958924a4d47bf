-- ===== src/Protocol/RuntimeStats/Tests.antt =====
-- Statistics of a session at concrete inputs.
use espview.Base.{ℕ, ◌≤◌, ◌≡◌, arith, [], ◌∷◌}
use espview.Protocol.RuntimeStats.{DiagnosticEntry, Severity, no_rtt, make_ring}
use espview.Protocol.RuntimeStats.Bounds.{record_all, record_all_bounds}
use espview.Protocol.RuntimeStats.Ring.{push_all, last_of, push_all-last_of}

record_all_bounds_example :
    let a = record_all (30 ∷ 10 ∷ 20 ∷ []) no_rtt in
    (a.samples ≡ 3) × (a.min_ms ≤ a.avg_ms) × (a.avg_ms ≤ a.max_ms)
record_all_bounds_example = record_all_bounds 30 (10 ∷ 20 ∷ []) (ground arith) (ground arith)

abbrev entry : ℕ → DiagnosticEntry
entry t = record { timestamp_ms = t; severity = Severity.info; source = []; message = [] }

push_all-last_of_example :
    (push_all (entry 1 ∷ entry 2 ∷ entry 3 ∷ []) (make_ring 2)).items
    ≡ last_of 2 (entry 1 ∷ entry 2 ∷ entry 3 ∷ [])
push_all-last_of_example = push_all-last_of 2 (entry 1 ∷ entry 2 ∷ entry 3 ∷ [])
