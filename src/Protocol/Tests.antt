-- ===== src/Protocol/Tests.antt =====
-- Runs of the protocol's parts at concrete inputs, and the theorems applied to them.
use espview.Base.{
  ◌+◌, ℕ, ◌≡◌, refl, ◌≢◌, ◌↔◌, arith, true, false, List, [], ◌∷◌, ◌++◌, some, take, drop, replicate,
  length-replicate,
}
use espview.Base.Bytes.{IsBytes}
use espview.Protocol.MessageType
use espview.Protocol.ByteOrder.{read_u32_le, write_u32_le, write_u16_le}
use espview.Protocol.Crc32.{crc32, crc32_update, crc32_init}
use espview.Protocol.Crc32.Reference.{divide_bytes, crc32_update-divide_bytes}
use espview.Protocol.Packet.{
  PacketHeader, PacketError, header_bytes, header_fields, check_header, encode_packet,
  verify_packet_crc, empty_header, decode_header, packet_header_size,
}
use espview.Protocol.Packet.Header.{
  IsHeader, Accepts, check_header-Accepts, header_bytes-header_fields,
}
use espview.Protocol.Packet.RoundTrip.{
  sealed, sealed-IsHeader, encode_packet-ok, decode_sealed, verify_packet_crc-sealed,
}
use espview.Protocol.Packet.Checksum.{verify_packet_crc_one_byte}
use espview.Protocol.Message.{Message}
use espview.Protocol.Encoder
use espview.Protocol.Encoder.{Encoder, check_message}
use espview.Protocol.Encoder.Emitting.{IsReady, init-IsReady}
use espview.Protocol.Encoder.Packets.{Sends, encode-packets}
use espview.Protocol.Decoder
use espview.Protocol.Decoder.{StreamDecoder}
use espview.Protocol.Decoder.Run.{IsValid, Ran, feed-Run}
use espview.Protocol.Decoder.Pieces.{Agrees, feed-append}
use espview.Protocol.Decoder.EndToEnd.{IsIdle, Arrives, encode-feed}
use espview.Protocol.FrameAssembler
use espview.Protocol.FrameAssembler.{
  FrameAssembler, RectInfo, on_begin, on_commit, Input, message, stream_error, reset_input, step,
  steps,
}
use espview.Protocol.FrameAssembler.Contract.{IsBounded, ghost, observe_all, after_input}
use espview.Protocol.FrameAssembler.Opening.{Conforms}
use espview.Protocol.FrameAssembler.History.{step-Conforms, steps-observe}

-- The check value of CRC-32.
crc32_check : crc32 (b'1' ∷ b'2' ∷ b'3' ∷ b'4' ∷ b'5' ∷ b'6' ∷ b'7' ∷ b'8' ∷ b'9' ∷ []) ≡ 0xCBF43926
unfolding crc32
crc32_check = refl

abbrev two_bytes : List ℕ
two_bytes = 0x10 ∷ 0xFF ∷ []

two_bytes-IsBytes : IsBytes two_bytes
two_bytes-IsBytes = omega arith

crc32_update-divide_bytes_example :
    crc32_update crc32_init two_bytes ≡ divide_bytes crc32_init two_bytes
crc32_update-divide_bytes_example = crc32_update-divide_bytes crc32_init two_bytes two_bytes-IsBytes

abbrev header : PacketHeader
header = record {
  magic = (0x45, 0x53, 0x50, 0x56);
  version = 1;
  type = 0x20;
  flags = 0;
  rsvd = 0;
  seq = 65535;
  length = 2;
  crc32 = 0;
  rsvd2 = 0;
}

header-IsHeader : IsHeader header
header-IsHeader = record {
  magic = refl;
  version = refl;
  type_min = omega arith;
  type_max = omega arith;
  flags = omega arith;
  rsvd = omega arith;
  seq = omega arith;
  length = omega arith;
  crc32 = omega arith;
  rsvd2 = omega arith;
}

decode_sealed_example :
    let bytes = header_bytes (sealed header two_bytes) ++ (two_bytes ++ (7 ∷ [])) in
    (decode_header (some bytes) (some empty_header)
      ≡ (PacketError.ok, some (sealed header two_bytes)))
    × (take header.length (drop packet_header_size bytes) ≡ two_bytes)
    × (verify_packet_crc (sealed header two_bytes) two_bytes ≡ PacketError.ok)
decode_sealed_example =
    decode_sealed header two_bytes (7 ∷ []) header-IsHeader two_bytes-IsBytes refl

abbrev blank : List ℕ
blank = replicate 30 0

encode_packet-ok_example : encode_packet header two_bytes (some blank) ≡ (
  PacketError.ok,
  some (
      header_bytes (sealed header two_bytes) ++ (two_bytes ++ drop (packet_header_size + 2) blank)),
  packet_header_size + 2,
)
encode_packet-ok_example =
    encode_packet-ok header two_bytes blank refl (omega arith)
      (omega (arith, length-replicate {A = ℕ} 30 0))

verify_packet_crc_one_byte_example :
    verify_packet_crc (sealed header two_bytes) (0x10 ∷ 0xFE ∷ []) ≡ PacketError.crc_mismatch
verify_packet_crc_one_byte_example =
    verify_packet_crc_one_byte (sealed header two_bytes) 0xFF 0xFE (0x10 ∷ []) [] sealed_header
      (omega arith) (omega arith) (omega arith) tt differ
      (verify_packet_crc-sealed header two_bytes refl)
  where
    sealed_header : IsHeader (sealed header two_bytes)
    sealed_header = sealed-IsHeader header two_bytes header-IsHeader two_bytes-IsBytes

    differ : ◌≢◌ {A = ℕ} 0xFF 0xFE
    differ e = omega arith

abbrev wire_header : List ℕ
wire_header =
    0x45 ∷ 0x53 ∷ 0x50 ∷ 0x56 ∷ 1 ∷ 0x20 ∷ 0 ∷ 0 ∷ 0xFF ∷ 0xFF ∷ 2 ∷ 0 ∷ 0 ∷ 0 ∷ 1 ∷ 2 ∷ 3 ∷ 4 ∷ 0
    ∷ 0 ∷ []

wire_header-ok : check_header wire_header ≡ PacketError.ok
unfolding check_header read_u32_le
wire_header-ok = refl

check_header-Accepts_example : (check_header wire_header ≡ PacketError.ok) ↔ Accepts wire_header
check_header-Accepts_example = check_header-Accepts wire_header

header_bytes-header_fields_example : header_bytes (header_fields wire_header) ≡ take 20 wire_header
header_bytes-header_fields_example =
    header_bytes-header_fields wire_header (omega arith)
      ((check_header-Accepts wire_header).0 wire_header-ok)

-- A message of two bytes, and both ends as their constructors leave them.
abbrev key_message : Message
key_message = record { type = 0x20; flags = 0; payload = two_bytes }

key_message-ok : check_message key_message ≡ PacketError.ok
unfolding check_message
key_message-ok = refl

abbrev encoder : Encoder
encoder = Encoder.init 65535

abbrev decoder : StreamDecoder
decoder = record {
  core = record {
    state = Decoder.State.sync;
    candidate = empty_header;
    assembly = record { assembling = false; type = 0; flags = 0; payload = [] };
    expected_seq = 65535;
    max_payload = 1048576;
  };
  buf = [];
  start = 0;
}

encoder-IsReady : IsReady encoder
encoder-IsReady = init-IsReady 65535 (omega arith)

decoder-IsValid : IsValid decoder
decoder-IsValid = record { start = omega arith; ready = tt }

decoder-IsIdle : IsIdle decoder 65535
decoder-IsIdle = record {
  valid = decoder-IsValid;
  state = refl;
  pending = refl;
  assembly = refl;
  expected = refl;
}

encode-packets_example : Sends key_message two_bytes encoder [] (Encoder.encode key_message encoder)
encode-packets_example = encode-packets key_message encoder key_message-ok encoder-IsReady

encode-feed_example : Arrives key_message encoder decoder
encode-feed_example =
    encode-feed key_message encoder decoder key_message-ok (omega arith) two_bytes-IsBytes
      encoder-IsReady decoder-IsIdle (omega arith)

feed-append_example : Agrees decoder wire_header two_bytes
feed-append_example = feed-append decoder wire_header two_bytes decoder-IsValid

feed-Run_example : Ran (0x45 ∷ wire_header) decoder.core (Decoder.feed decoder (0x45 ∷ wire_header))
feed-Run_example = feed-Run decoder 0x45 wire_header decoder-IsValid

-- A frame of one pixel.
abbrev assembler : FrameAssembler
assembler = FrameAssembler.init

abbrev frame_begin : Message
frame_begin = record {
  type = MessageType.frame_begin;
  flags = 0;
  payload = 7 ∷ 0 ∷ 0 ∷ 0 ∷ 1 ∷ 0 ∷ 1 ∷ 0 ∷ 2 ∷ 0 ∷ 0 ∷ 0 ∷ [];
}

abbrev frame_rect : Message
frame_rect = record {
  type = MessageType.frame_rect;
  flags = 0;
  payload = 0 ∷ 0 ∷ 0 ∷ 0 ∷ 1 ∷ 0 ∷ 1 ∷ 0 ∷ 0xAB ∷ 0xCD ∷ [];
}

abbrev frame_end : Message
frame_end = record {
  type = MessageType.frame_end;
  flags = 0;
  payload = 7 ∷ 0 ∷ 1 ∷ 0 ∷ 2 ∷ 0 ∷ 0 ∷ 0 ∷ 0 ∷ [];
}

abbrev one_frame : List Input
one_frame = message frame_begin ∷ message frame_rect ∷ message frame_end ∷ []

assembler-IsBounded : IsBounded assembler
assembler-IsBounded = record {
  format = refl;
  type = refl;
  rects = omega arith;
  bytes = omega arith;
}

one_frame_commits : (steps one_frame assembler).0.has_committed_base ≡ true
unfolding steps espview.Protocol.ByteOrder.read_u16_le read_u32_le
one_frame_commits = refl

step-Conforms_example :
    Conforms
      (ghost assembler)
      (step (message frame_begin) assembler)
      (after_input (message frame_begin))
step-Conforms_example = step-Conforms (message frame_begin) assembler assembler-IsBounded

steps-observe_example :
    observe_all (steps one_frame assembler).1 (ghost assembler)
    ≡ some (ghost (steps one_frame assembler).0)
steps-observe_example = steps-observe one_frame assembler assembler-IsBounded tt
