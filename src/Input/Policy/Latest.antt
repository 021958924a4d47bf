-- ===== src/Input/Policy/Latest.antt =====
-- shared/input/input_policy.h: which points the throttle has sent after any calls.
use espview.Base.{
  ℕ, ◌≡◌, refl, sym, ap, ◌∙◌, arith, false, List, [], ◌∷◌, ◌++◌, Option, none, some, if◌then◌else◌,
  if_then,
}
use espview.Input.Policy.{
  Point, MouseMoveThrottle, flush_pending, accept_move, reset, Call, move, tick, restart, step,
  steps, with_sent,
}

abbrev pub last_of : List Point → Option Point → Option Point
last_of [] p = p
last_of (q ∷ qs) p = last_of qs (some q)

-- The point of the last move since the last reset, or before the calls.
abbrev pub moved_to : List Call → Option Point → Option Point
moved_to [] p = p
moved_to (move now q ∷ cs) p = moved_to cs (some q)
moved_to (tick now ∷ cs) p = moved_to cs p
moved_to (restart ∷ cs) p = moved_to cs none

abbrev pub or_else : Option Point → Option Point → Option Point
or_else none q = q
or_else (some p) q = some p

-- The point that waits.
abbrev pub waiting : MouseMoveThrottle → Option Point
waiting t = if t.has_pending then some t.pending else none

-- A move since the last reset waits, or it is the last point that was sent; without one nothing waits.
Owes : Option Point → MouseMoveThrottle → Option Point → Type 0
Owes none t sent = t.has_pending ≡ false
Owes (some q) t sent = or_else (waiting t) sent ≡ some q

step-Owes :
    (c : Call) (moved : Option Point) (t : MouseMoveThrottle) (sent : Option Point)
    → Owes moved t sent
    → Owes (moved_to (c ∷ []) moved) (step c t).0 (or_else (step c t).1 sent)
unfolding Owes step accept_move flush_pending reset
step-Owes (move now p) moved t sent h = ground arith
step-Owes (tick now) none t sent h = ground arith
step-Owes (tick now) (some q) t sent h = ground arith
step-Owes restart moved t sent h = refl

last_of-with_sent :
    (o : Option Point) (ps : List Point) (sent : Option Point)
    → last_of (with_sent o ps) sent ≡ last_of ps (or_else o sent)
last_of-with_sent none ps sent = refl
last_of-with_sent (some p) ps sent = refl

moved_to_cons :
    (c : Call) (cs : List Call) (p : Option Point)
    → moved_to (c ∷ cs) p ≡ moved_to cs (moved_to (c ∷ []) p)
moved_to_cons (move now q) cs p = refl
moved_to_cons (tick now) cs p = refl
moved_to_cons restart cs p = refl

steps-Owes :
    (cs : List Call) (moved : Option Point) (t : MouseMoveThrottle) (sent : Option Point)
    → Owes moved t sent
    → Owes (moved_to cs moved) (steps cs t).0 (last_of (steps cs t).1 sent)
unfolding steps
steps-Owes [] moved t sent h = h
steps-Owes (c ∷ cs) moved t sent h =
    let (t', out) = step c t in
    rw (moved_to_cons c cs moved, last_of-with_sent out (steps cs t').1 sent)
      (steps-Owes cs (moved_to (c ∷ []) moved) t' (or_else out sent) (step-Owes c moved t sent h))

steps_then_tick :
    (cs : List Call) (now : ℕ) (t : MouseMoveThrottle) (sent : Option Point)
    → last_of (steps (cs ++ (tick now ∷ [])) t).1 sent
      ≡ or_else (waiting (steps cs t).0) (last_of (steps cs t).1 sent)
unfolding steps step flush_pending
steps_then_tick [] now t sent = ground arith
steps_then_tick (c ∷ cs) now t sent =
    let (t', out) = step c t in
    last_of-with_sent out (steps (cs ++ (tick now ∷ [])) t').1 sent
    ∙ steps_then_tick cs now t' (or_else out sent)
    ∙ ap (λ (p : Option Point). or_else (waiting (steps cs t').0) p)
        (sym (last_of-with_sent out (steps cs t').1 sent))

Owes-paid :
    (moved : Option Point) (t : MouseMoveThrottle) (sent : Option Point)
    → Owes moved t sent
    → or_else (waiting t) sent ≡ or_else moved sent
unfolding Owes
Owes-paid none t sent h = rw h refl
Owes-paid (some q) t sent h = h

start-Owes : (t : MouseMoveThrottle) (sent : Option Point) → Owes (waiting t) t sent
unfolding Owes
start-Owes t sent = if_then (λ o. Owes o t sent) t.has_pending (λ h. rw h refl) (λ h. h)

-- The throttle loses no last move: after any calls, resets too, and a tick, the last point that was sent,
-- now or before, is that of the last move since the last reset, or what waited before the calls if
-- there was neither a move nor a reset; and if a reset dropped all moves, the tick sends nothing: it is
-- what the calls sent last.
pub steps-tick :
    (cs : List Call) (now : ℕ) (t : MouseMoveThrottle) (sent : Option Point)
    → last_of (steps (cs ++ (tick now ∷ [])) t).1 sent
      ≡ or_else (moved_to cs (waiting t)) (last_of (steps cs t).1 sent)
steps-tick cs now t sent =
    steps_then_tick cs now t sent
    ∙ Owes-paid (moved_to cs (waiting t)) (steps cs t).0 (last_of (steps cs t).1 sent)
        (steps-Owes cs (waiting t) t sent (start-Owes t sent))
