-- ===== src/Protocol/RuntimeStats/Ring.antt =====
-- shared/protocol/runtime_stats.cpp: what the ring of diagnostics keeps.
use espview.Base.{
  ℕ, ◌-◌, ◌≤◌, ◌≡◌, refl, sym, ap, ◌∙◌, arith, List, [], ◌∷◌, ◌++◌, append_assoc, append-nil, ◌==◌,
  if◌then◌else◌, length, drop, length-append, length-drop, drop-drop, drop-append_le,
}
use espview.Protocol.RuntimeStats.{DiagnosticEntry, DiagnosticsRing, make_ring, push}

unfoldable pub push_all : List DiagnosticEntry → DiagnosticsRing → DiagnosticsRing
push_all [] r = r
push_all (e ∷ es) r = push_all es (push e r)

-- The last so many of the entries.
abbrev pub last_of : ℕ → List DiagnosticEntry → List DiagnosticEntry
last_of n es = drop (length es - n) es

last_of-last_of :
    (n : ℕ) (all : List DiagnosticEntry) (e : DiagnosticEntry)
    → last_of n (last_of n all ++ (e ∷ [])) ≡ last_of n (all ++ (e ∷ []))
last_of-last_of n all e =
    let m = length all - n in
    let le : m ≤ length all = omega arith in
    ap (last_of n) (sym (drop-append_le m all (e ∷ []) le))
    ∙ drop-drop m (length (drop m (all ++ (e ∷ []))) - n) (all ++ (e ∷ []))
    ∙ ap (λ (k : ℕ). drop k (all ++ (e ∷ [])))
        (omega (arith, length-drop m (all ++ (e ∷ [])), length-append all (e ∷ [])))

drop-none : (n : ℕ) → drop {A = DiagnosticEntry} (0 - n) [] ≡ []
drop-none n = let e : 0 - n ≡ 0 = omega arith in rw e refl

push-last :
    (all : List DiagnosticEntry) (e : DiagnosticEntry) (r : DiagnosticsRing)
    → r.items ≡ last_of r.capacity all
    → (push e r).items ≡ last_of r.capacity (all ++ (e ∷ []))
unfolding push
push-last all e r h =
    ap (λ (es : List DiagnosticEntry). last_of r.capacity (es ++ (e ∷ []))) h
    ∙ last_of-last_of r.capacity all e

push_all-last :
    (all es : List DiagnosticEntry) (r : DiagnosticsRing)
    → r.items ≡ last_of r.capacity all
    → (push_all es r).items ≡ last_of r.capacity (all ++ es)
unfolding push_all push
push_all-last all [] r h = rw (append-nil all) h
push_all-last all (e ∷ es) r h =
    push_all-last (all ++ (e ∷ [])) es (push e r) (push-last all e r h)
    ∙ ap (last_of r.capacity) (append_assoc all (e ∷ []) es)

-- After any pushes into a new ring it holds the last of the entries, in their order, as many as its
-- capacity, of which a ring that is made with none has one.
pub push_all-last_of :
    (capacity : ℕ) (es : List DiagnosticEntry)
    → (push_all es (make_ring capacity)).items ≡ last_of (if capacity == 0 then 1 else capacity) es
unfolding make_ring
push_all-last_of capacity es =
    push_all-last [] es (make_ring capacity) (sym (drop-none ((make_ring capacity).capacity)))
