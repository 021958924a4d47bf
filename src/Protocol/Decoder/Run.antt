-- ===== src/Protocol/Decoder/Run.antt =====
-- shared/protocol/decoder.cpp: the decoder's loop without its buffer's representation, as runs of
-- turns over the pending bytes.
use espview.Base.{
  ℕ, zero, suc, ◌+◌, ◌-◌, ◌≤◌, ◌<◌, ◌≡◌, refl, sym, ap, ◌∙◌, inl, inr, arith, true, false, List,
  ◌∷◌, ◌++◌, Option, some, ltb, length, take, drop, length-drop, length-append, drop-append_le,
  Bool-cases, drop-drop, drop-all, le→leb, lt→leb, if◌then◌else◌, not_lt→ltb,
}
use mathlib.Core.Bool.{false≢true}
use native.Mathlib.Decide.{dec_le}
use espview.Protocol.Packet.{packet_header_size, decode_header}
use espview.Protocol.Decoder.{
  State, Core, sync_turn, wait, StreamDecoder, compaction_threshold, pending, Turn, turn, turn_at,
  compact, consume, process, feed, turns, prepend,
}
use espview.Protocol.Decoder.Reassembly.{Event}
use espview.Protocol.Decoder.Scan.{ScanResult, keep_from, found, scan}
use espview.Protocol.Decoder.Scan.Resume.{scan-Within, Within}
use espview.Protocol.Decoder.Turns.{
  IsReadyAt, IsReady, measure, rank, header_goes_on, payload_goes_on, verify_goes_on, header-wait,
  header_on, payload_wait, payload_on, Progress, sync_Progress, header-Progress, payload_Progress,
  verify_Progress,
}

-- The turns that a run is made of, to the first that waits.
pub data Run : List ℕ → Core → List ℕ → Core → List Event → Type 0 where
  stop :
      {bytes : List ℕ} {c : Core} {left : List ℕ} {c' : Core} {events : List Event}
      → (turn bytes c).again ≡ false
      → left ≡ drop (turn bytes c).consumed bytes
      → c' ≡ (turn bytes c).core
      → events ≡ (turn bytes c).events
      → Run bytes c left c' events
  go :
      {bytes : List ℕ} {c : Core} {left : List ℕ} {c' : Core} {events rest : List Event}
      → (turn bytes c).again ≡ true
      → Run (drop (turn bytes c).consumed bytes) (turn bytes c).core left c' rest
      → events ≡ (turn bytes c).events ++ rest
      → Run bytes c left c' events

Within-found : (n i : ℕ) (r : ScanResult) → Within 0 n r → r ≡ found i → i ≤ n
Within-found n i (keep_from k) w e = cc
Within-found n i (found k) w e = grind arith

found_Within :
    (f : ℕ) (bytes : List ℕ)
    → length bytes < f
    → (i : ℕ) → scan f bytes 0 ≡ found i
    → i ≤ length bytes
found_Within f bytes l i e =
    omega (arith, Within-found (0 + length bytes) i (scan f bytes 0) (scan-Within f bytes 0 l) e)

again_wait : (c : Core) (n : ℕ) (t : Turn) → t ≡ wait c n → t.again ≡ true → false ≡ true
again_wait c n t e g = ap (λ (t : Turn). t.again) (sym e) ∙ g

-- A turn that goes on makes progress.
pub turn_at-Progress :
    (s : State) (bytes : List ℕ) (c : Core)
    → IsReadyAt s bytes c
    → (turn_at s bytes c).again ≡ true
    → Progress s bytes (turn_at s bytes c)
unfolding turn_at
turn_at-Progress State.sync bytes c r g =
    sync_Progress (scan (suc (length bytes)) bytes 0) bytes c
      (found_Within (suc (length bytes)) bytes (omega arith)) g
turn_at-Progress State.header bytes c r g = elim (dec_le packet_header_size (length bytes)) [
  | yes l ↦ rw (header_on bytes c l) (
      header-Progress (decode_header (some (take packet_header_size bytes)) (some c.candidate))
        bytes c (omega arith))
  | no l ↦ absurd (false≢true (again_wait c 0 _ (header-wait bytes c (omega arith)) g))
]
turn_at-Progress State.payload bytes c r g =
    elim (dec_le (packet_header_size + c.candidate.length) (length bytes)) [
      | yes l ↦ rw (payload_on bytes c l) (payload_Progress bytes c l)
      | no l ↦ absurd (false≢true (again_wait c 0 _ (payload_wait bytes c (omega arith)) g))
    ]
turn_at-Progress State.verify bytes c r g = verify_Progress bytes c r

-- What `consume` keeps: the bytes behind those that were consumed, and the members.
pub record Consumed (n : ℕ) (d d' : StreamDecoder) : Type 0 where
  pub left : pending d' ≡ drop n (pending d)
  pub core : d'.core ≡ d.core
  pub start : d'.start ≤ length d'.buf

compact_lem :
    (buf : List ℕ) (start : ℕ) (c : Core)
    → (pending (compact buf start c) ≡ drop start buf)
      × ((compact buf start c).core ≡ c)
      × ((compact buf start c).start ≤ length (compact buf start c).buf)
unfolding compact
compact_lem buf start c = elim (dec_le (length buf) start) [
  | yes l ↦ rw (le→leb (length buf) start l) (sym (drop-all start buf l), refl, omega arith)
  | no l ↦ rw (lt→leb start (length buf) (omega arith)) (elim (dec_le compaction_threshold start) [
    | yes k ↦ rw (le→leb compaction_threshold start k) (refl, refl, omega arith)
    | no k ↦ rw (lt→leb start compaction_threshold (omega arith)) (refl, refl, omega arith)
  ])
]

cut_to : (avail n : ℕ) → n ≤ avail → (if ltb avail n then avail else n) ≡ n
cut_to avail n h = rw (not_lt→ltb avail n h) refl

pub consume_lem :
    (n : ℕ) (d : StreamDecoder)
    → d.start ≤ length d.buf
    → n ≤ length (pending d)
    → Consumed n d (consume n d)
unfolding consume
consume_lem n d s l =
    let size = length-drop d.start d.buf in
    let fits : n ≤ length d.buf - d.start = omega arith in
    let same : (if ltb (length d.buf - d.start) n then length d.buf - d.start else n) ≡ n =
      cut_to (length d.buf - d.start) n fits in
    let (left, core, start) = compact_lem d.buf (d.start + n) d.core in
    rw same (record { left = left ∙ sym (drop-drop d.start n d.buf); core = core; start = start })

-- The members are in order: the start is in the buffer, and in the state `verify` a packet is there.
pub record IsValid (d : StreamDecoder) : Type 0 where
  pub start : d.start ≤ length d.buf
  pub ready : IsReady (pending d) d.core

-- What the loop returns, and the run that it made.
pub record Ran (bytes : List ℕ) (c : Core) (outcome : Option (StreamDecoder × List Event))
    : Type 0 where
  pub decoder : StreamDecoder
  pub events : List Event
  pub returns : outcome ≡ some (decoder, events)
  pub valid : IsValid decoder
  pub run : Run bytes c (pending decoder) decoder.core events

process_stop :
    (fuel : ℕ) (d : StreamDecoder)
    → (turn (pending d) d.core).again ≡ false
    → let t = turn (pending d) d.core in
      process (suc fuel) d ≡ some (consume t.consumed (record d { core = t.core }), t.events)
unfolding process
process_stop fuel d e = rw e refl

process_go :
    (fuel : ℕ) (d : StreamDecoder)
    → (turn (pending d) d.core).again ≡ true
    → let t = turn (pending d) d.core in
      process (suc fuel) d
      ≡ prepend t.events (process fuel (consume t.consumed (record d { core = t.core })))
unfolding process
process_go fuel d e = rw e refl

-- What a turn that waits leaves.
pub record Waits (bytes : List ℕ) (t : Turn) : Type 0 where
  pub ready : IsReady (drop t.consumed bytes) t.core
  pub within : t.consumed ≤ length bytes

sync_Waits :
    (r : ScanResult) (bytes : List ℕ) (c : Core)
    → c.state ≡ State.sync
    → Within 0 (0 + length bytes) r
    → (sync_turn r c).again ≡ false
    → Waits bytes (sync_turn r c)
unfolding sync_turn
sync_Waits (keep_from k) bytes c s w e = record { ready = rw s tt; within = omega arith }
sync_Waits (found k) bytes c s w e = absurd (false≢true (sym e))

pub turn_at-Waits :
    (s : State) (bytes : List ℕ) (c : Core)
    → c.state ≡ s
    → (turn_at s bytes c).again ≡ false
    → Waits bytes (turn_at s bytes c)
unfolding turn_at
turn_at-Waits State.sync bytes c s e =
    sync_Waits (scan (suc (length bytes)) bytes 0) bytes c s
      (scan-Within (suc (length bytes)) bytes 0 (omega arith)) e
turn_at-Waits State.header bytes c s e = elim (dec_le packet_header_size (length bytes)) [
  | yes l ↦ absurd (header_goes_on bytes c l e)
  | no l ↦ rw (header-wait bytes c (omega arith)) (record { ready = rw s tt; within = omega arith })
]
turn_at-Waits State.payload bytes c s e =
    elim (dec_le (packet_header_size + c.candidate.length) (length bytes)) [
      | yes l ↦ absurd (payload_goes_on bytes c l e)
      | no l ↦
          rw (payload_wait bytes c (omega arith)) (record { ready = rw s tt; within = omega arith })
    ]
turn_at-Waits State.verify bytes c s e = absurd (verify_goes_on bytes c e)

run_go :
    (bytes : List ℕ) (c : Core) (outcome : Option (StreamDecoder × List Event))
    → (turn bytes c).again ≡ true
    → Ran (drop (turn bytes c).consumed bytes) (turn bytes c).core outcome
    → Ran bytes c (prepend (turn bytes c).events outcome)
run_go bytes c outcome g r = record {
  decoder = r.decoder;
  events = (turn bytes c).events ++ r.events;
  returns = ap (prepend (turn bytes c).events) r.returns;
  valid = r.valid;
  run = go g r.run refl;
}

Ran-at :
    {bytes bytes' : List ℕ} {c c' : Core} {outcome : Option (StreamDecoder × List Event)}
    → bytes ≡ bytes'
    → c ≡ c'
    → Ran bytes c outcome
    → Ran bytes' c' outcome
Ran-at e k r = rw (← e, ← k) r

-- The loop returns: fuel above the measure is enough.
process-Run :
    (fuel : ℕ) (d : StreamDecoder)
    → measure (pending d) d.core < fuel
    → IsValid d
    → Ran (pending d) d.core (process fuel d)
process-Run zero d f v = absurd (omega arith)
process-Run (suc fuel) d f v =
    let t : Turn = turn (pending d) d.core in
    let next : StreamDecoder = consume t.consumed (record d { core = t.core }) in
    elim (Bool-cases t.again) [
      | inl g ↦
          let p = turn_at-Progress d.core.state (pending d) d.core v.ready g in
          let k = consume_lem t.consumed (record d { core = t.core }) v.start p.within in
          rw (process_go fuel d g) (
            run_go (pending d) d.core (process fuel next) g (
              Ran-at k.left k.core (
                process-Run fuel next (rw (k.left, k.core) (omega (arith, p.less)))
                  (record { start = k.start; ready = rw (k.left, k.core) p.ready }))))
      | inr e ↦
          let w = turn_at-Waits d.core.state (pending d) d.core refl e in
          let k = consume_lem t.consumed (record d { core = t.core }) v.start w.within in
          record {
            decoder = next;
            events = t.events;
            returns = process_stop fuel d e;
            valid = record { start = k.start; ready = rw (k.left, k.core) w.ready };
            run = stop e k.left k.core refl;
          }
    ]

pub rank_bound : (s : State) → rank s ≤ 3
rank_bound State.sync = omega arith
rank_bound State.header = omega arith
rank_bound State.payload = omega arith
rank_bound State.verify = omega arith

-- More bytes behind the pending ones keep the decoder in order.
pub appended-IsReadyAt :
    (s : State) (bytes more : List ℕ) (c : Core)
    → IsReadyAt s bytes c
    → IsReadyAt s (bytes ++ more) c
appended-IsReadyAt State.sync bytes more c r = tt
appended-IsReadyAt State.header bytes more c r = tt
appended-IsReadyAt State.payload bytes more c r = tt
appended-IsReadyAt State.verify bytes more c r = omega (arith, length-append bytes more)

-- `feed` of some bytes always returns, and its run is one over the pending bytes and the new ones.
pub feed-Run :
    (d : StreamDecoder) (b : ℕ) (bytes : List ℕ)
    → IsValid d
    → Ran (pending d ++ (b ∷ bytes)) d.core (feed d (b ∷ bytes))
unfolding feed
feed-Run d b bytes v =
    let d' : StreamDecoder = record d { buf = d.buf ++ (b ∷ bytes) } in
    let e : pending d' ≡ pending d ++ (b ∷ bytes) =
      drop-append_le d.start d.buf (b ∷ bytes) v.start in
    rw (← e) (
      process-Run (turns (length (pending d'))) d' (omega (arith, rank_bound d.core.state))
        (record {
          start = omega (arith, v.start, length-append d.buf (b ∷ bytes));
          ready = rw e (appended-IsReadyAt d.core.state (pending d) (b ∷ bytes) d.core v.ready);
        }))
