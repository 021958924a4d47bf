-- ===== src/Protocol/Packet.antt =====
-- shared/protocol/packet.h and packet.cpp: the header of 20 bytes, the packet and its CRC. A buffer
-- is its list of bytes, so its size is the length; the null pointer is `none`.
pub mod Header
pub mod Checksum
pub mod RoundTrip
use espview.Base.{
  ℕ, ◌+◌, Bool, not, List, [], ◌∷◌, ◌++◌, Option, none, some, bit_xor, ltb, ◌!=◌, ◌||◌,
  if◌then◌else◌, length, take, drop, get_or,
}
use espview.Base.Bytes.{overwrite}
use espview.Protocol.Wire.{
  Magic, protocol_magic, protocol_version, max_packet_payload, min_message_type, max_message_type,
}
use espview.Protocol.ByteOrder.{read_u16_le, write_u16_le, read_u32_le, write_u32_le}
use espview.Protocol.Crc32.{crc32_init, crc32_final_xor, crc32_update}

abbrev pub packet_header_size : ℕ
packet_header_size = 20

pub data PacketError : Type 0 where
  ok buffer_too_small invalid_magic unsupported_version invalid_type invalid_length : PacketError
  crc_mismatch message_too_large sink_aborted invalid_ack_req : PacketError

pub record PacketHeader : Type 0 where
  pub magic : Magic
  pub version : ℕ
  pub type : ℕ
  pub flags : ℕ
  pub rsvd : ℕ
  pub seq : ℕ
  pub length : ℕ
  pub crc32 : ℕ
  pub rsvd2 : ℕ

abbrev pub empty_header : PacketHeader
empty_header = record {
  magic = (0, 0, 0, 0);
  version = 0;
  type = 0;
  flags = 0;
  rsvd = 0;
  seq = 0;
  length = 0;
  crc32 = 0;
  rsvd2 = 0;
}

-- The bytes that `writeCrcCoveredHeader` stores at `dst[0..14)`.
unfoldable pub crc_covered_header : PacketHeader → List ℕ
crc_covered_header h =
    h.magic.0
    ∷ h.magic.1
    ∷ h.magic.2
    ∷ h.magic.3
    ∷ h.version
    ∷ h.type
    ∷ h.flags
    ∷ h.rsvd
    ∷ (write_u16_le h.seq ++ write_u32_le h.length)

-- The bytes that `writeHeader` stores at `out[0..20)`.
unfoldable pub header_bytes : PacketHeader → List ℕ
unfolding crc_covered_header
header_bytes h = crc_covered_header h ++ (write_u32_le h.crc32 ++ write_u16_le h.rsvd2)

unfoldable pub make_header : ℕ → ℕ → ℕ → ℕ → PacketHeader
make_header type flags seq length = record {
  magic = protocol_magic;
  version = protocol_version;
  type = type;
  flags = flags;
  rsvd = 0;
  seq = seq;
  length = length;
  crc32 = 0;
  rsvd2 = 0;
}

-- The error, the buffer afterwards, and what goes through `written`.
unfoldable pub encode_header : PacketHeader → Option (List ℕ) → PacketError × Option (List ℕ) × ℕ
unfolding header_bytes
encode_header h none = (PacketError.buffer_too_small, none, 0)
encode_header h (some out) =
    if ltb (length out) packet_header_size
    then (PacketError.buffer_too_small, some out, 0)
    else if ltb max_packet_payload h.length
    then (PacketError.invalid_length, some out, 0)
    else (PacketError.ok, some (overwrite 0 (header_bytes h) out), packet_header_size)

-- What `decodeHeader` stores once its checks have passed.
unfoldable pub header_fields : List ℕ → PacketHeader
header_fields bytes = record {
  magic = protocol_magic;
  version = get_or bytes 4 0;
  type = get_or bytes 5 0;
  flags = get_or bytes 6 0;
  rsvd = get_or bytes 7 0;
  seq = read_u16_le (drop 8 bytes);
  length = read_u32_le (drop 10 bytes);
  crc32 = read_u32_le (drop 14 bytes);
  rsvd2 = read_u16_le (drop 18 bytes);
}

unfoldable pub is_magic : List ℕ → Magic → Bool
is_magic bytes m = not (
    get_or bytes 0 0 != m.0
    || get_or bytes 1 0 != m.1
    || get_or bytes 2 0 != m.2
    || get_or bytes 3 0 != m.3)

-- The checks of `decodeHeader`, in its order.
unfoldable pub check_header : List ℕ → PacketError
unfolding is_magic
check_header bytes =
    if ltb (length bytes) packet_header_size
    then PacketError.buffer_too_small
    else if is_magic bytes protocol_magic
    then (if get_or bytes 4 0 != protocol_version
        then PacketError.unsupported_version
        else (if ltb (get_or bytes 5 0) min_message_type || ltb max_message_type (get_or bytes 5 0)
            then PacketError.invalid_type
            else (if ltb max_packet_payload (read_u32_le (drop 10 bytes))
                then PacketError.invalid_length
                else PacketError.ok)))
    else PacketError.invalid_magic

-- `*out` is written only on success.
unfoldable pub decode_header :
    Option (List ℕ) → Option PacketHeader → PacketError × Option PacketHeader
decode_header none out = (PacketError.buffer_too_small, out)
decode_header (some bytes) none = (PacketError.buffer_too_small, none)
decode_header (some bytes) (some out) = elim (check_header bytes) [
  | PacketError.ok ↦ (PacketError.ok, some (header_fields bytes))
  | e ↦ (e, some out)
]

unfoldable pub compute_packet_crc : PacketHeader → List ℕ → ℕ
compute_packet_crc h payload =
    bit_xor (crc32_update (crc32_update crc32_init (crc_covered_header h)) payload) crc32_final_xor

-- The packet that `encodePacket` leaves in a buffer that is large enough.
unfoldable pub write_packet : PacketHeader → List ℕ → List ℕ → List ℕ
unfolding header_bytes compute_packet_crc
write_packet h payload out =
    let wire = record h { crc32 = 0 } in
    let headed = overwrite 0 (header_bytes wire) out in
    let filled = overwrite packet_header_size payload headed in
    overwrite 14 (write_u32_le (compute_packet_crc wire payload)) filled

unfoldable pub encode_packet :
    PacketHeader → List ℕ → Option (List ℕ) → PacketError × Option (List ℕ) × ℕ
unfolding write_packet
encode_packet h payload none = (PacketError.buffer_too_small, none, 0)
encode_packet h payload (some out) =
    if ltb (length out) (packet_header_size + length payload)
    then (PacketError.buffer_too_small, some out, 0)
    else if ltb max_packet_payload (length payload)
    then (PacketError.invalid_length, some out, 0)
    else if h.length != length payload
    then (PacketError.invalid_length, some out, 0)
    else (PacketError.ok, some (write_packet h payload out), packet_header_size + length payload)

unfoldable pub verify_packet_crc : PacketHeader → List ℕ → PacketError
unfolding compute_packet_crc
verify_packet_crc h payload =
    if length payload != h.length
    then PacketError.invalid_length
    else if compute_packet_crc h payload != h.crc32
    then PacketError.crc_mismatch
    else PacketError.ok
