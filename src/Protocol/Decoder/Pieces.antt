-- ===== src/Protocol/Decoder/Pieces.antt =====
-- shared/protocol/decoder.cpp: a stream that is fed in pieces.
use espview.Base.{
  ℕ, ◌≡◌, refl, sym, ap, ◌∙◌, List, [], ◌∷◌, ◌++◌, some, drop-append_le, append_assoc, append-nil,
}
use mathlib.Core.Bool.{false≢true}
use espview.Protocol.Decoder.{Core, StreamDecoder, pending, Turn, turn, feed}
use espview.Protocol.Decoder.Reassembly.{Event}
use espview.Protocol.Decoder.Turns.{IsReady}
use espview.Protocol.Decoder.Run.{
  Run, stop, go, turn_at-Progress, IsValid, feed-Run, appended-IsReadyAt,
}
use espview.Protocol.Decoder.Resuming.{Same-Run, turn_at-Resumes, turn_at-append}

-- Runs over pieces make a run over the whole.
pub Run-append :
    {bytes : List ℕ} {c : Core} {left : List ℕ} {c' : Core} {events : List Event} (more : List ℕ)
    {last : List ℕ} {c'' : Core} {rest : List Event}
    → IsReady bytes c
    → Run bytes c left c' events
    → Run (left ++ more) c' last c'' rest
    → Run (bytes ++ more) c last c'' (events ++ rest)
Run-append {bytes = bytes} {c = c} more {rest = rest} r (stop a l e v) run =
    let (same, silent) = turn_at-Resumes c.state bytes more c refl a in
    rw (v, silent) (Same-Run {c = c} same (rw (← l, ← e) run))
Run-append {bytes = bytes} {c = c} {events = events} more {rest = rest} r
      (go {rest = events'} a tail v) run =
    let p = turn_at-Progress c.state bytes c r a in
    let on = turn_at-append c.state bytes more c r a in
    let later = Run-append more p.ready tail run in
    go {rest = events' ++ rest} (rw on a)
      (rw (on, drop-append_le (turn bytes c).consumed bytes more p.within) later)
      (ap (λ (es : List Event). es ++ rest) v
        ∙ append_assoc (turn bytes c).events events' rest
        ∙ ap (λ (t : Turn). t.events ++ (events' ++ rest)) (sym on))

-- A run has one outcome.
pub Run-unique :
    {bytes : List ℕ} {c : Core} {left left' : List ℕ} {c' c'' : Core} {events events' : List Event}
    → Run bytes c left c' events
    → Run bytes c left' c'' events'
    → (left ≡ left') × (c' ≡ c'') × (events ≡ events')
Run-unique (stop a l e v) (stop a' l' e' v') = (l ∙ sym l', e ∙ sym e', v ∙ sym v')
Run-unique (stop a l e v) (go a' r' v') = absurd (false≢true (sym a ∙ a'))
Run-unique (go a r v) (stop a' l' e' v') = absurd (false≢true (sym a' ∙ a))
Run-unique {bytes = bytes} {c = c} (go a r v) (go a' r' v') =
    let (left, core, rest) = Run-unique r r' in
    (left, core, v ∙ ap (λ (es : List Event). (turn bytes c).events ++ es) rest ∙ sym v')

-- What feeding two pieces, and feeding them as one, come to.
pub record Agrees (d : StreamDecoder) (xs ys : List ℕ) : Type 0 where
  pub first : StreamDecoder
  pub second : StreamDecoder
  pub whole : StreamDecoder
  pub before : List Event
  pub after : List Event
  pub feed_first : feed d xs ≡ some (first, before)
  pub feed_second : feed first ys ≡ some (second, after)
  pub feed_whole : feed d (xs ++ ys) ≡ some (whole, before ++ after)
  pub pending : pending whole ≡ pending second
  pub core : whole.core ≡ second.core
  pub valid : IsValid second

-- However a stream is cut in two, `feed` of the pieces and `feed` of the whole both return, report
-- the same events in the same order, and leave the same members and the same bytes pending.
pub feed-append : (d : StreamDecoder) (xs ys : List ℕ) → IsValid d → Agrees d xs ys
unfolding feed
feed-append d [] [] v = record {
  first = d;
  second = d;
  whole = d;
  before = [];
  after = [];
  feed_first = refl;
  feed_second = refl;
  feed_whole = refl;
  pending = refl;
  core = refl;
  valid = v;
}
feed-append d [] (y ∷ ys) v =
    let two = feed-Run d y ys v in
    record {
      first = d;
      second = two.decoder;
      whole = two.decoder;
      before = [];
      after = two.events;
      feed_first = refl;
      feed_second = two.returns;
      feed_whole = two.returns;
      pending = refl;
      core = refl;
      valid = two.valid;
    }
feed-append d (x ∷ xs) [] v =
    let one = feed-Run d x xs v in
    record {
      first = one.decoder;
      second = one.decoder;
      whole = one.decoder;
      before = one.events;
      after = [];
      feed_first = one.returns;
      feed_second = refl;
      feed_whole = rw (append-nil xs, append-nil one.events) one.returns;
      pending = refl;
      core = refl;
      valid = one.valid;
    }
feed-append d (x ∷ xs) (y ∷ ys) v =
    let one = feed-Run d x xs v in
    let two = feed-Run one.decoder y ys one.valid in
    let all = feed-Run d x (xs ++ (y ∷ ys)) v in
    let joined =
      Run-append (y ∷ ys) (appended-IsReadyAt d.core.state (pending d) (x ∷ xs) d.core v.ready)
        one.run two.run in
    let same_bytes : pending d ++ (x ∷ xs) ++ (y ∷ ys) ≡ pending d ++ (x ∷ (xs ++ (y ∷ ys))) =
      append_assoc (pending d) (x ∷ xs) (y ∷ ys) in
    let (left, core, events) = Run-unique all.run (rw same_bytes at joined) in
    record {
      first = one.decoder;
      second = two.decoder;
      whole = all.decoder;
      before = one.events;
      after = two.events;
      feed_first = one.returns;
      feed_second = two.returns;
      feed_whole = all.returns ∙ ap (λ (es : List Event). some (all.decoder, es)) events;
      pending = left;
      core = core;
      valid = two.valid;
    }
