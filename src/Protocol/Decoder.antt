-- ===== src/Protocol/Decoder.antt =====
-- shared/protocol/decoder.h and decoder.cpp: from a byte stream to packets, and from packets to
-- messages. The callbacks are events, in the order of the calls; a callback does not call back.
pub mod Reassembly
pub mod Scan
pub mod Turns
pub mod Run
pub mod Packets
pub mod Chunked
pub mod RoundTrip
pub mod EndToEnd
pub mod Resuming
pub mod Pieces
use mathlib.Core.Option
use espview.Base.{
  ℕ, zero, suc, ◌+◌, ◌-◌, ◌*◌, Bool, true, false, not, ◌&&◌, ◌||◌, List, [], ◌∷◌, ◌++◌, Option,
  none, some, bit_and, ltb, leb, ◌==◌, ◌!=◌, if◌then◌else◌, length, take, drop,
}
use espview.Base.Word.{u16}
use espview.Protocol.Wire.{flag_chunked, not_flag_chunked}
use espview.Protocol.MessageType
use espview.Protocol.Packet.{
  PacketHeader, PacketError, empty_header, packet_header_size, decode_header, verify_packet_crc,
}
use espview.Protocol.Message.{Message}
use Reassembly.{
  DecoderError, Event, received, packet, failed, Assembly, abort_message, handle_verified_packet,
}
use Scan.{ScanResult, keep_from, found, scan}

abbrev pub compaction_threshold : ℕ
compaction_threshold = 65536

pub data State : Type 0 where
  sync header payload verify : State

-- The members but the buffer.
pub record Core : Type 0 where
  pub state : State
  pub candidate : PacketHeader
  pub assembly : Assembly
  pub expected_seq : ℕ
  pub max_payload : ℕ

pub record StreamDecoder : Type 0 where
  pub core : Core
  pub buf : List ℕ
  pub start : ℕ

abbrev pub pending : StreamDecoder → List ℕ
pending d = drop d.start d.buf

abbrev idle_assembly : Assembly
idle_assembly = record { assembling = false; type = 0; flags = 0; payload = [] }

abbrev pub init : ℕ → StreamDecoder
init max_payload = record {
  core = record {
    state = State.sync;
    candidate = empty_header;
    assembly = idle_assembly;
    expected_seq = 0;
    max_payload = max_payload;
  };
  buf = [];
  start = 0;
}

-- What one turn of the loop in `process` does: the members afterwards, the bytes that it consumes,
-- its callbacks, and whether the loop goes on.
pub record Turn : Type 0 where
  pub core : Core
  pub consumed : ℕ
  pub events : List Event
  pub again : Bool

-- A turn that waits for more data.
abbrev pub wait : Core → ℕ → Turn
wait c n = record { core = c; consumed = n; events = []; again = false }

abbrev pub to_state : State → Core → Turn
to_state s c = record { core = record c { state = s }; consumed = 0; events = []; again = true }

unfoldable pub sync_turn : ScanResult → Core → Turn
sync_turn (keep_from i) c = wait c i
sync_turn (found i) c = record {
  core = record c { state = State.header };
  consumed = i;
  events = [];
  again = true;
}

-- The error that is reported for a header that was refused.
unfoldable pub header_error : PacketError → DecoderError
header_error PacketError.unsupported_version = DecoderError.bad_version
header_error PacketError.invalid_type = DecoderError.bad_type
header_error PacketError.invalid_length = DecoderError.bad_length
header_error _ = DecoderError.bad_magic

unfoldable pub header_turn : PacketError × Option PacketHeader → Core → Turn
unfolding header_error
header_turn (PacketError.ok, some h) c = to_state State.payload (record c { candidate = h })
header_turn (e, out) c = record {
  core = record c { state = State.sync };
  consumed = 1;
  events = failed (header_error e) ∷ [];
  again = true;
}

-- The packet is dropped: the message in assembly is given up, and the sequence starts anew.
abbrev pub drop_packet : Core → ℕ → List Event → Turn
drop_packet c size events = record {
  core = record c {
    state = State.sync;
    assembly = abort_message c.assembly;
    expected_seq = u16 (c.candidate.seq + 1);
  };
  consumed = size;
  events = events;
  again = true;
}

-- The packet is handed on to the assembly.
abbrev pub take_packet : Core → ℕ → List ℕ → List Event → Turn
take_packet c size body events =
    let (assembly, more) = handle_verified_packet c.max_payload c.candidate body c.assembly in
    record {
      core = record c {
        state = State.sync;
        assembly = assembly;
        expected_seq = u16 (c.candidate.seq + 1);
      };
      consumed = size;
      events = events ++ more;
      again = true;
    }

-- What follows the check of a packet's CRC, for the packet's payload.
unfoldable pub verified_turn : PacketError → List ℕ → Core → Turn
verified_turn PacketError.ok body c =
    let h = c.candidate in
    let size = packet_header_size + h.length in
    let seen = packet h body ∷ [] in
    if h.type == MessageType.hello
    then take_packet c size body seen
    else if h.seq != c.expected_seq
    then drop_packet c size (seen ++ (failed DecoderError.sequence_gap ∷ []))
    else take_packet c size body seen
verified_turn _ body c =
    drop_packet c (packet_header_size + c.candidate.length) (failed DecoderError.crc_mismatch ∷ [])

-- The payload of the packet in front of the bytes.
abbrev pub body_of : PacketHeader → List ℕ → List ℕ
body_of h bytes = take h.length (drop packet_header_size bytes)

unfoldable pub verify_turn : List ℕ → Core → Turn
unfolding verified_turn
verify_turn bytes c =
    let body = body_of c.candidate bytes in
    verified_turn (verify_packet_crc c.candidate body) body c

-- One turn of the loop, given the bytes that are buffered.
unfoldable pub turn_at : State → List ℕ → Core → Turn
unfolding sync_turn header_turn verify_turn
turn_at State.sync bytes c = sync_turn (scan (suc (length bytes)) bytes 0) c
turn_at State.header bytes c =
    if ltb (length bytes) packet_header_size
    then wait c 0
    else header_turn (decode_header (some (take packet_header_size bytes)) (some c.candidate)) c
turn_at State.payload bytes c =
    if ltb (length bytes) (packet_header_size + c.candidate.length)
    then wait c 0
    else to_state State.verify c
turn_at State.verify bytes c = verify_turn bytes c

abbrev pub turn : List ℕ → Core → Turn
turn bytes c = turn_at c.state bytes c

-- `consume`, once `n` is cut to what is there.
unfoldable pub compact : List ℕ → ℕ → Core → StreamDecoder
compact buf start c =
    if leb (length buf) start
    then record { core = c; buf = []; start = 0 }
    else if leb compaction_threshold start
    then record { core = c; buf = drop start buf; start = 0 }
    else record { core = c; buf = buf; start = start }

unfoldable pub consume : ℕ → StreamDecoder → StreamDecoder
unfolding compact
consume n d =
    let avail = length d.buf - d.start in
    compact d.buf (d.start + (if ltb avail n then avail else n)) d.core

abbrev pub Outcome : Type 0
Outcome = Option (StreamDecoder × List Event)

abbrev pub prepend : List Event → Outcome → Outcome
prepend events = Option.map λ r. (r.0, events ++ r.1)

-- `process`; the fuel bounds the turns.
unfoldable pub process : ℕ → StreamDecoder → Outcome
process zero d = none
process (suc fuel) d =
    let t = turn (pending d) d.core in
    let d' = consume t.consumed (record d { core = t.core }) in
    let rest = process fuel d' in if t.again then prepend t.events rest else some (d', t.events)

-- Turns that a buffer of so many bytes is good for.
abbrev pub turns : ℕ → ℕ
turns n = 4 * n + 4

unfoldable pub feed : StreamDecoder → List ℕ → Outcome
feed d [] = some (d, [])
feed d (b ∷ bytes) =
    let d' = record d { buf = d.buf ++ (b ∷ bytes) } in process (turns (length (pending d'))) d'

unfoldable pub reset : StreamDecoder → StreamDecoder
reset d = init d.core.max_payload

unfoldable pub reset_seq_baseline : StreamDecoder → StreamDecoder
reset_seq_baseline d = record d { core = record d.core { expected_seq = 0 } }

-- The sequence number that is expected survives a time-out.
unfoldable pub on_timeout : StreamDecoder → StreamDecoder
on_timeout d = record {
  core = record d.core {
    state = State.sync;
    candidate = empty_header;
    assembly = abort_message d.core.assembly;
  };
  buf = [];
  start = 0;
}

unfoldable pub buffered_bytes : StreamDecoder → ℕ
buffered_bytes d = length d.buf - d.start

unfoldable pub assembling_message : StreamDecoder → Bool
assembling_message d = d.core.assembly.assembling
