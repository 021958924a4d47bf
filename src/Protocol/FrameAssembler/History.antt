-- ===== src/Protocol/FrameAssembler/History.antt =====
-- shared/protocol/frame_assembler.cpp: steps and runs of the frame assembler against the contract.
use espview.Base.{
  ◌≡◌, refl, sym, ap, ◌∙◌, arith, List, [], ◌∷◌, ◌++◌, Option, none, some, ◌==◌, Option-cases,
  Bool-cases, inl, inr,
}
use mathlib.Core.Option.{some-injective}
use espview.Protocol.MessageType
use espview.Protocol.Message.{Message}
use espview.Protocol.FrameAssembler.{
  FrameAssembler, FrameState, FrameDiscardReason, FrameEvent, Input, message, stream_error,
  reset_input, step, steps, reset, on_stream_error, begin_ok, begin_fields, reset_turn, error_turn,
  handle_begin, rect_ok, handle_rect, end_refusal, handle_end, on_message,
}
use espview.Protocol.FrameAssembler.Contract.{
  Ghost, observe, observe_all, after_input, open_in, ghost, IsBounded,
}
use espview.Protocol.FrameAssembler.Opening.{
  Conforms, begin_fields_sound, discard_to-Conforms, ghost_at, observe_all-cons, same,
  silent-Conforms,
}
use espview.Protocol.FrameAssembler.Parts.{
  begin_turn-Conforms, committed_sound, end_turn-Conforms, rect_ok-RectChecked, rect_turn-Conforms,
  silent_at,
}

reset_turn-Conforms :
    (s : FrameState) (a : FrameAssembler)
    → Conforms (ghost_at s a) (reset_turn s a) (after_input reset_input)
unfolding reset_turn observe_all observe after_input
reset_turn-Conforms FrameState.in_frame a = record {
  before = record { frame = none; base = a.has_committed_base };
  lets = refl;
  after = refl;
  bounded = record { format = refl; type = refl; rects = omega arith; bytes = omega arith };
}
reset_turn-Conforms FrameState.idle a = record {
  before = ghost_at FrameState.idle a;
  lets = refl;
  after = refl;
  bounded = record { format = refl; type = refl; rects = omega arith; bytes = omega arith };
}
reset_turn-Conforms FrameState.discard_frame a = record {
  before = ghost_at FrameState.discard_frame a;
  lets = refl;
  after = refl;
  bounded = record { format = refl; type = refl; rects = omega arith; bytes = omega arith };
}

error_turn-Conforms :
    (s : FrameState) (a : FrameAssembler)
    → a.state ≡ s
    → IsBounded a
    → Conforms (ghost_at s a) (error_turn s a) same
unfolding error_turn
error_turn-Conforms FrameState.in_frame a e v =
    discard_to-Conforms FrameDiscardReason.stream_error a (open_in FrameState.in_frame a) v
error_turn-Conforms FrameState.idle a e v = silent_at FrameState.idle a e v
error_turn-Conforms FrameState.discard_frame a e v = silent_at FrameState.discard_frame a e v

on_message-Conforms :
    (msg : Message) (a : FrameAssembler) → IsBounded a → Conforms (ghost a) (on_message msg a) same
unfolding on_message handle_begin handle_rect handle_end
on_message-Conforms msg a v = elim (Bool-cases (msg.type == MessageType.frame_begin)) [
  | inl b ↦ rw b (
      begin_turn-Conforms (begin_ok msg.payload) a.state (begin_fields msg.payload) a
        (begin_fields_sound msg.payload) refl v)
  | inr b ↦ rw b (elim (Bool-cases (msg.type == MessageType.frame_rect)) [
    | inl r ↦ rw r (
        rect_turn-Conforms (rect_ok msg.payload a) a.state msg.payload a
          (rect_ok-RectChecked msg.payload a v) refl v)
    | inr r ↦ rw r (elim (Bool-cases (msg.type == MessageType.frame_end)) [
      | inl e ↦ rw e (
          end_turn-Conforms (end_refusal msg.payload a) a.state a (committed_sound msg.payload a v)
            refl v)
      | inr e ↦ rw e (silent-Conforms a v)
    ])
  ])
]

-- One input of any kind, in any state whose counts are bounded: its reports are a step of the
-- contract from what was open before to what is open after, and the counts stay bounded.
pub step-Conforms :
    (i : Input) (a : FrameAssembler) → IsBounded a → Conforms (ghost a) (step i a) (after_input i)
unfolding step after_input reset on_stream_error
step-Conforms (message msg) a v = on_message-Conforms msg a v
step-Conforms stream_error a v = error_turn-Conforms a.state a refl v
step-Conforms reset_input a v = reset_turn-Conforms a.state a

-- No reset among the inputs.
abbrev pub IsUninterrupted : List Input → Type 0
IsUninterrupted [] = Unit
IsUninterrupted (message msg ∷ is) = IsUninterrupted is
IsUninterrupted (stream_error ∷ is) = IsUninterrupted is
IsUninterrupted (reset_input ∷ is) = ⊥

uninterrupted :
    (i : Input) (is : List Input)
    → IsUninterrupted (i ∷ is)
    → ((g : Ghost) → after_input i g ≡ g) × IsUninterrupted is
unfolding after_input
uninterrupted (message msg) is u = ((λ g. refl), u)
uninterrupted stream_error is u = ((λ g. refl), u)
uninterrupted reset_input is u = absurd u

none≢some : {A : Type 0} {a : A} → ◌≡◌ {A = Option A} none (some a) → ⊥
none≢some e = cc

observe_all-stuck :
    (e : FrameEvent) (es : List FrameEvent) (g : Ghost)
    → observe e g.frame g.base ≡ none
    → observe_all (e ∷ es) g ≡ none
unfolding observe_all
observe_all-stuck e es g o = rw (observe_all, o) refl

observe_all-append :
    (es fs : List FrameEvent) (g g' : Ghost)
    → observe_all es g ≡ some g'
    → observe_all (es ++ fs) g ≡ observe_all fs g'
unfolding observe_all
observe_all-append [] fs g g' e = ap (observe_all fs) (some-injective g g' e)
observe_all-append (e ∷ es) fs g g' o = elim (Option-cases (observe e g.frame g.base)) [
  | inl n ↦ absurd (none≢some (sym (observe_all-stuck e es g n) ∙ o))
  | inr (h, n) ↦
      observe_all-cons e (es ++ fs) g h n
      ∙ observe_all-append es fs h g' (sym (observe_all-cons e es g h n) ∙ o)
]

observe_all-nil : (g : Ghost) → observe_all [] g ≡ some g
unfolding observe_all
observe_all-nil g = refl

-- Between two resets, whatever the assembler is told: the contract lets all of its reports through,
-- and ends where the assembler stands.
pub steps-observe :
    (is : List Input) (a : FrameAssembler)
    → IsBounded a
    → IsUninterrupted is
    → observe_all (steps is a).1 (ghost a) ≡ some (ghost (steps is a).0)
unfolding steps
steps-observe [] a v u = observe_all-nil (ghost a)
steps-observe (i ∷ is) a v u =
    let c = step-Conforms i a v in
    let (kept, later) = uninterrupted i is u in
    observe_all-append (step i a).1 (steps is (step i a).0).1 (ghost a) c.before c.lets
    ∙ ap (observe_all (steps is (step i a).0).1) (sym (kept c.before) ∙ c.after)
    ∙ steps-observe is (step i a).0 c.bounded later
