-- ===== src/Protocol/Decoder/Turns.antt =====
-- shared/protocol/decoder.cpp: a turn of the decoder's loop, its measure, and bytes behind those
-- that it looked at.
use espview.Base.{
  ℕ, ◌+◌, ◌*◌, ◌≤◌, ◌<◌, ◌≡◌, refl, sym, ap, ◌∙◌, arith, true, false, List, Option, none, some,
  length, take, drop, length-drop, lt→ltb, not_lt→ltb,
}
use mathlib.Core.Bool.{false≢true}
use espview.Protocol.Packet.{
  PacketHeader, PacketError, packet_header_size, decode_header, verify_packet_crc,
}
use espview.Protocol.Decoder.{
  State, Core, Turn, turn_at, wait, to_state, sync_turn, header_turn, verify_turn, verified_turn,
  body_of,
}
use espview.Protocol.Decoder.Scan.{ScanResult, keep_from, found}

-- In the state `verify` the packet is there.
abbrev pub IsReadyAt : State → List ℕ → Core → Type 0
IsReadyAt State.verify bytes c = packet_header_size + c.candidate.length ≤ length bytes
IsReadyAt _ bytes c = Unit {0}

abbrev pub IsReady : List ℕ → Core → Type 0
IsReady bytes c = IsReadyAt c.state bytes c

abbrev pub rank : State → ℕ
rank State.sync = 3
rank State.header = 2
rank State.payload = 1
rank State.verify = 0

-- It falls with every turn that goes on.
abbrev pub measure : List ℕ → Core → ℕ
measure bytes c = 4 * length bytes + rank c.state

-- What a turn from the state `s` that goes on has done.
pub record Progress (s : State) (bytes : List ℕ) (t : Turn) : Type 0 where
  pub less : measure (drop t.consumed bytes) t.core < 4 * length bytes + rank s
  pub ready : IsReady (drop t.consumed bytes) t.core
  pub within : t.consumed ≤ length bytes

verified_turn_shape :
    (e : PacketError) (body : List ℕ) (c : Core)
    → ((verified_turn e body c).consumed ≡ packet_header_size + c.candidate.length)
      × ((verified_turn e body c).core.state ≡ State.sync)
      × ((verified_turn e body c).again ≡ true)
unfolding verified_turn
verified_turn_shape e body c = ground arith

verify_turn_shape :
    (bytes : List ℕ) (c : Core)
    → ((verify_turn bytes c).consumed ≡ packet_header_size + c.candidate.length)
      × ((verify_turn bytes c).core.state ≡ State.sync)
      × ((verify_turn bytes c).again ≡ true)
unfolding verify_turn
verify_turn_shape bytes c =
    let body : List ℕ = body_of c.candidate bytes in
    verified_turn_shape (verify_packet_crc c.candidate body) body c

pub sync_Progress :
    (r : ScanResult) (bytes : List ℕ) (c : Core)
    → ((i : ℕ) → r ≡ found i → i ≤ length bytes)
    → (sync_turn r c).again ≡ true
    → Progress State.sync bytes (sync_turn r c)
unfolding sync_turn
sync_Progress (keep_from i) bytes c b g = cc
sync_Progress (found i) bytes c b g = record {
  less = omega (arith, length-drop i bytes);
  ready = tt;
  within = b i refl;
}

pub header-Progress :
    (r : PacketError × Option PacketHeader) (bytes : List ℕ) (c : Core)
    → 1 ≤ length bytes
    → Progress State.header bytes (header_turn r c)
unfolding header_turn
header-Progress (PacketError.ok, some h) bytes c b = record {
  less = omega arith;
  ready = tt;
  within = omega arith;
}
header-Progress (PacketError.ok, none) bytes c b = record {
  less = omega (arith, length-drop 1 bytes);
  ready = tt;
  within = b;
}
header-Progress (e, out) bytes c b = record {
  less = omega (arith, length-drop 1 bytes);
  ready = tt;
  within = b;
}

pub payload_Progress :
    (bytes : List ℕ) (c : Core)
    → packet_header_size + c.candidate.length ≤ length bytes
    → Progress State.payload bytes (to_state State.verify c)
payload_Progress bytes c b = record { less = omega arith; ready = b; within = omega arith }

pub verify_Progress :
    (bytes : List ℕ) (c : Core)
    → packet_header_size + c.candidate.length ≤ length bytes
    → Progress State.verify bytes (verify_turn bytes c)
verify_Progress bytes c b =
    let (size, state, again) = verify_turn_shape bytes c in
    record {
      less =
          rw (state, size)
            (omega (arith, length-drop (packet_header_size + c.candidate.length) bytes));
      ready = rw state tt;
      within = omega arith;
    }

-- The two cases of a turn that asks for so many bytes, as equations.
module _ (bytes : List ℕ) (c : Core) where
  pub header-wait : length bytes < packet_header_size → turn_at State.header bytes c ≡ wait c 0
  unfolding turn_at
  header-wait l = rw (lt→ltb (length bytes) packet_header_size l) refl

  pub header_on :
      packet_header_size ≤ length bytes
      → turn_at State.header bytes c
        ≡ header_turn (decode_header (some (take packet_header_size bytes)) (some c.candidate)) c
  unfolding turn_at
  header_on l = rw (not_lt→ltb (length bytes) packet_header_size l) refl

  pub payload_wait :
      length bytes < packet_header_size + c.candidate.length
      → turn_at State.payload bytes c ≡ wait c 0
  unfolding turn_at
  payload_wait l = rw (lt→ltb (length bytes) (packet_header_size + c.candidate.length) l) refl

  pub payload_on :
      packet_header_size + c.candidate.length ≤ length bytes
      → turn_at State.payload bytes c ≡ to_state State.verify c
  unfolding turn_at
  payload_on l = rw (not_lt→ltb (length bytes) (packet_header_size + c.candidate.length) l) refl

-- Turns that do not wait.
module _ (bytes : List ℕ) (c : Core) where
  header_turn-again : (r : PacketError × Option PacketHeader) → (header_turn r c).again ≡ true
  unfolding header_turn
  header_turn-again (PacketError.ok, some h) = refl
  header_turn-again (PacketError.ok, none) = refl
  header_turn-again (e, out) = refl

  pub header_goes_on :
      packet_header_size ≤ length bytes → (turn_at State.header bytes c).again ≡ false → ⊥
  header_goes_on l e = false≢true (
      sym e
      ∙ ap (λ (t : Turn). t.again) (header_on bytes c l)
      ∙ header_turn-again (decode_header (some (take packet_header_size bytes)) (some c.candidate)))

  pub payload_goes_on :
      packet_header_size + c.candidate.length ≤ length bytes
      → (turn_at State.payload bytes c).again ≡ false
      → ⊥
  payload_goes_on l e = false≢true (sym e ∙ ap (λ (t : Turn). t.again) (payload_on bytes c l))

  pub verify_goes_on : (verify_turn bytes c).again ≡ false → ⊥
  verify_goes_on e =
      false≢true (sym e ∙ (let (size, state, again) = verify_turn_shape bytes c in again))
