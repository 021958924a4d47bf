-- ===== src/Protocol/FrameAssembler/Opening.antt =====
-- shared/protocol/frame_assembler.cpp: a begin, and the reports that close a frame, against the
-- contract.
use espview.Base.{
  ℕ, ◌≡◌, refl, ◌∙◌, arith, Bool, true, ◌||◌, List, [], ◌∷◌, ◌++◌, Option, none, some, ◌==◌,
}
use espview.Protocol.FrameAssembler.{
  FrameAssembler, FrameState, FrameBeginInfo, FrameDiscardReason, FrameEvent, on_begin, on_discard,
  Stepped, frame_full, frame_partial, rgb565, discard_to, begin_ok, begin_fields, open_frame,
}
use espview.Protocol.FrameAssembler.Contract.{
  Open, Ghost, sound_begin, observe, observe_all, open_in, ghost, IsBounded,
}

-- A step whose reports the contract lets through.
pub record Conforms (g : Ghost) (s : Stepped) (reaches : Ghost → Ghost) : Type 0 where
  pub before : Ghost
  pub lets : observe_all s.1 g ≡ some before
  pub after : reaches before ≡ ghost s.0
  pub bounded : IsBounded s.0

abbrev pub same : Ghost → Ghost
same g = g

pub discard_to-Conforms :
    (r : FrameDiscardReason) (a : FrameAssembler) (frame : Option Open)
    → IsBounded a
    → Conforms (record { frame = frame; base = a.has_committed_base }) (discard_to r a) same
unfolding discard_to observe_all
discard_to-Conforms r a frame v = record {
  before = record { frame = none; base = a.has_committed_base };
  lets = refl;
  after = refl;
  bounded = record { format = v.format; type = v.type; rects = v.rects; bytes = v.bytes };
}

pub silent-Conforms : (a : FrameAssembler) → IsBounded a → Conforms (ghost a) (a, []) same
unfolding observe_all
silent-Conforms a v = record { before = ghost a; lets = refl; after = refl; bounded = v }

pub begin_fields_sound : (p : List ℕ) → begin_ok p ≡ true → sound_begin (begin_fields p) ≡ true
unfolding begin_ok begin_fields sound_begin
begin_fields_sound p e = ground arith

sound_begin-format : (b : FrameBeginInfo) → sound_begin b ≡ true → b.pixel_format ≡ rgb565
unfolding sound_begin
sound_begin-format b e = ground arith

sound_begin-type :
    (b : FrameBeginInfo)
    → sound_begin b ≡ true
    → (b.frame_type == frame_full || b.frame_type == frame_partial) ≡ true
unfolding sound_begin
sound_begin-type b e = ground arith

pub observe_all-cons :
    (e : FrameEvent) (es : List FrameEvent) (g g' : Ghost)
    → observe e g.frame g.base ≡ some g'
    → observe_all (e ∷ es) g ≡ observe_all es g'
unfolding observe_all
observe_all-cons e es g g' o = rw (observe_all, o) refl

pub observe_all-one :
    (e : FrameEvent) (g g' : Ghost)
    → observe e g.frame g.base ≡ some g'
    → observe_all (e ∷ []) g ≡ some g'
unfolding observe_all
observe_all-one e g g' o = observe_all-cons e [] g g' o

observe-begin :
    (b : FrameBeginInfo) (base : Bool)
    → sound_begin b ≡ true
    → observe (on_begin b) none base
      ≡ some (record { frame = some (record { begin = b; rects = 0; bytes = 0 }); base = base })
unfolding observe
observe-begin b base e = rw e refl

pub open_frame-Conforms :
    (b : FrameBeginInfo) (a : FrameAssembler)
    → sound_begin b ≡ true
    → Conforms (record { frame = none; base = a.has_committed_base }) (open_frame b a) same
unfolding open_frame
open_frame-Conforms b a e = record {
  before = record {
    frame = some (record { begin = b; rects = 0; bytes = 0 });
    base = a.has_committed_base;
  };
  lets =
      observe_all-one (on_begin b) (record { frame = none; base = a.has_committed_base }) _
        (observe-begin b a.has_committed_base e);
  after = refl;
  bounded = record {
    format = sound_begin-format b e;
    type = sound_begin-type b e;
    rects = omega arith;
    bytes = omega arith;
  };
}

observe_all-two :
    (e e' : FrameEvent) (g g' g'' : Ghost)
    → observe e g.frame g.base ≡ some g'
    → observe e' g'.frame g'.base ≡ some g''
    → observe_all (e ∷ (e' ∷ [])) g ≡ some g''
observe_all-two e e' g g' g'' o p =
    observe_all-cons e (e' ∷ []) g g' o ∙ observe_all-one e' g' g'' p

-- An open frame that a new begin supersedes.
pub supersede-Conforms :
    (b : FrameBeginInfo) (a : FrameAssembler) (frame : Option Open)
    → sound_begin b ≡ true
    → IsBounded a
    → let closed = discard_to FrameDiscardReason.superseded_by_new_begin a in
      let opened = open_frame b closed.0 in
      Conforms
        (record { frame = frame; base = a.has_committed_base })
        (opened.0, closed.1 ++ opened.1)
        same
unfolding open_frame discard_to observe
supersede-Conforms b a frame e v =
    let base = a.has_committed_base in
    let started : Ghost = record {
      frame = some (record { begin = b; rects = 0; bytes = 0 });
      base = base;
    } in
    record {
      before = started;
      lets =
          observe_all-two (on_discard FrameDiscardReason.superseded_by_new_begin) (on_begin b)
            (record { frame = frame; base = base }) (record { frame = none; base = base }) started
            refl (observe-begin b base e);
      after = refl;
      bounded = record {
        format = sound_begin-format b e;
        type = sound_begin-type b e;
        rects = omega arith;
        bytes = omega arith;
      };
    }

-- What was open in the state, whichever the assembler's is.
abbrev pub ghost_at : FrameState → FrameAssembler → Ghost
ghost_at s a = record { frame = open_in s a; base = a.has_committed_base }
