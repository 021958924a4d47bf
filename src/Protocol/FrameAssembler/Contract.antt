-- ===== src/Protocol/FrameAssembler/Contract.antt =====
-- shared/protocol/frame_assembler.h: the contract of the frame assembler, as an automaton over its
-- callbacks: which reports may follow which, and what a commit must add up to.
use espview.Base.{
  ℕ, ◌+◌, ◌*◌, ◌≤◌, ◌≡◌, Bool, true, false, ◌&&◌, ◌||◌, List, [], ◌∷◌, Option, none, some, leb,
  ◌==◌, if◌then◌else◌, length,
}
use espview.Protocol.FrameAssembler.{
  FrameAssembler, FrameState, FrameBeginInfo, RectInfo, CommittedFrame, FrameEvent, on_begin,
  on_rect, on_commit, on_discard, Input, reset_input, frame_full, frame_partial, rgb565,
  max_frame_rect_count,
}

-- What was reported of the frame that is open.
pub record Open : Type 0 where
  pub begin : FrameBeginInfo
  pub rects : ℕ
  pub bytes : ℕ

-- The frame that is open, and whether one was committed.
pub record Ghost : Type 0 where
  pub frame : Option Open
  pub base : Bool

-- A begin that the contract lets through.
unfoldable pub sound_begin : FrameBeginInfo → Bool
sound_begin b =
    (b.frame_type == frame_full || b.frame_type == frame_partial)
    && b.pixel_format == rgb565
    && leb 1 b.width
    && leb b.width 4096
    && leb 1 b.height
    && leb b.height 4096

-- A rectangle that lies in the frame, with its pixels of two bytes.
unfoldable pub sound_rect : FrameBeginInfo → RectInfo → List ℕ → Bool
sound_rect b r pixels =
    leb 1 r.w
    && leb 1 r.h
    && leb (r.x + r.w) b.width
    && leb (r.y + r.h) b.height
    && length pixels == 2 * (r.w * r.h)

-- The commit names the begin, and counts what was reported since.
unfoldable pub sound_commit : Open → Bool → CommittedFrame → Bool
sound_commit o base f =
    f.frame_id == o.begin.frame_id
    && f.frame_type == o.begin.frame_type
    && f.pixel_format == o.begin.pixel_format
    && f.width == o.begin.width
    && f.height == o.begin.height
    && f.rect_count == o.rects
    && f.byte_count == o.bytes
    && (base || f.frame_type == frame_full)

-- A report, given the frame that is open and whether one was committed; `none` is a breach.
unfoldable pub observe : FrameEvent → Option Open → Bool → Option Ghost
unfolding sound_begin sound_rect sound_commit
observe (on_begin b) none base =
    if sound_begin b
    then some (record { frame = some (record { begin = b; rects = 0; bytes = 0 }); base = base })
    else none
observe (on_begin b) (some o) base = none
observe (on_rect r pixels) none base = none
observe (on_rect r pixels) (some o) base =
    if sound_rect o.begin r pixels
    then some (record {
      frame = some (record o { rects = o.rects + 1; bytes = o.bytes + length pixels });
      base = base;
    })
    else none
observe (on_commit f) none base = none
observe (on_commit f) (some o) base =
    if sound_commit o base f then some (record { frame = none; base = true }) else none
observe (on_discard r) frame base = some (record { frame = none; base = base })

unfoldable pub observe_all : List FrameEvent → Ghost → Option Ghost
unfolding observe
observe_all [] g = some g
observe_all (e ∷ es) g = elim (observe e g.frame g.base) [
  | some g' ↦ observe_all es g'
  | none ↦ none
]

-- A reset forgets the frame that was committed.
unfoldable pub after_input : Input → Ghost → Ghost
after_input reset_input g = record { frame = none; base = false }
after_input _ g = g

-- What the assembler holds, in the contract's terms.
abbrev pub open_in : FrameState → FrameAssembler → Option Open
open_in FrameState.in_frame a =
    some (record { begin = a.begin; rects = a.rect_count; bytes = a.byte_count })
open_in _ a = none

abbrev pub ghost : FrameAssembler → Ghost
ghost a = record { frame = open_in a.state a; base = a.has_committed_base }

-- The counts fit the fields that the commit casts them to.
pub record IsBounded (a : FrameAssembler) : Type 0 where
  pub format : a.begin.pixel_format ≡ rgb565
  pub type : (a.begin.frame_type == frame_full || a.begin.frame_type == frame_partial) ≡ true
  pub rects : a.rect_count ≤ max_frame_rect_count
  pub bytes : a.byte_count ≤ 0xFFFFFFFF
