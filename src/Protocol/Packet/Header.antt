-- ===== src/Protocol/Packet/Header.antt =====
-- shared/protocol/packet.cpp: the header against its 20 bytes.
use espview.Base.{
  ℕ, ◌^◌, ◌≤◌, ◌<◌, ◌≡◌, refl, sym, ◌↔◌, arith, List, [], ◌∷◌, ◌++◌, length, take, drop, get_or,
  All-append,
}
use espview.Base.Bytes.{IsByte, IsBytes}
use espview.Protocol.Wire.{
  protocol_magic, protocol_version, max_packet_payload, min_message_type, max_message_type,
}
use espview.Protocol.ByteOrder.{write_u16_le, read_u32_le, write_u32_le}
use espview.Protocol.ByteOrder.RoundTrip.{
  read_u16_le-write_u16_le, read_u32_le-write_u32_le, write_u16_le-read_u16_le,
  write_u32_le-read_u32_le, write_u16_le-IsBytes, write_u32_le-IsBytes, read_u16_le_sum,
  read_u32_le_sum,
}
use espview.Protocol.Packet.{
  PacketHeader, PacketError, packet_header_size, crc_covered_header, header_bytes, header_fields,
  check_header,
}

-- The headers that the wire can carry.
pub record IsHeader (h : PacketHeader) : Type 0 where
  pub magic : h.magic ≡ protocol_magic
  pub version : h.version ≡ protocol_version
  pub type_min : min_message_type ≤ h.type
  pub type_max : h.type ≤ max_message_type
  pub flags : IsByte h.flags
  pub rsvd : IsByte h.rsvd
  pub seq : h.seq < 2 ^ 16
  pub length : h.length ≤ max_packet_payload
  pub crc32 : h.crc32 < 2 ^ 32
  pub rsvd2 : h.rsvd2 < 2 ^ 16

pub length-header_bytes : (h : PacketHeader) → length (header_bytes h) ≡ 20
unfolding header_bytes write_u16_le write_u32_le
length-header_bytes h = refl

pub length-crc_covered_header : (h : PacketHeader) → length (crc_covered_header h) ≡ 14
unfolding crc_covered_header write_u16_le write_u32_le
length-crc_covered_header h = refl

pub crc_covered_header-IsBytes : (h : PacketHeader) → IsHeader h → IsBytes (crc_covered_header h)
unfolding crc_covered_header
crc_covered_header-IsBytes h v =
    let m : IsBytes (0x45 ∷ 0x53 ∷ 0x50 ∷ 0x56 ∷ []) = omega arith in
    let tail =
      All-append IsByte (write_u16_le h.seq) (write_u32_le h.length) (write_u16_le-IsBytes h.seq)
        (write_u32_le-IsBytes h.length) in
    rw v.magic (
      m.0,
      (
        m.1.0,
        (
          m.1.1.0,
          (
            m.1.1.1.0,
            (omega (arith, v.version), (omega (arith, v.type_max), (v.flags, (v.rsvd, tail)))),
          ),
        ),
      ),
    )

-- Reading back the fields of a header that was written gives the header, whatever follows it.
pub header_fields-header_bytes :
    (h : PacketHeader) (rest : List ℕ) → IsHeader h → header_fields (header_bytes h ++ rest) ≡ h
unfolding header_fields header_bytes write_u16_le write_u32_le
header_fields-header_bytes h rest v = ground (
  arith,
  sym v.magic,
  read_u16_le-write_u16_le h.seq
      (write_u32_le h.length ++ (write_u32_le h.crc32 ++ (write_u16_le h.rsvd2 ++ rest))) v.seq,
  read_u32_le-write_u32_le h.length (write_u32_le h.crc32 ++ (write_u16_le h.rsvd2 ++ rest))
      (omega (arith, v.length)),
  read_u32_le-write_u32_le h.crc32 (write_u16_le h.rsvd2 ++ rest) v.crc32,
  read_u16_le-write_u16_le h.rsvd2 rest v.rsvd2,
)

-- The checks accept every header that the wire can carry.
pub check_header-header_bytes :
    (h : PacketHeader) (rest : List ℕ)
    → IsHeader h
    → check_header (header_bytes h ++ rest) ≡ PacketError.ok
unfolding check_header header_bytes write_u16_le write_u32_le
check_header-header_bytes h rest v = rw v.magic (
    ground (
      arith,
      v.version,
      v.type_min,
      v.type_max,
      v.length,
      read_u32_le-write_u32_le h.length (write_u32_le h.crc32 ++ (write_u16_le h.rsvd2 ++ rest))
          (omega (arith, v.length)),
    ))

-- What the checks ask of the bytes.
pub record Accepts (bytes : List ℕ) : Type 0 where
  pub size : packet_header_size ≤ length bytes
  pub magic0 : get_or bytes 0 0 ≡ protocol_magic.0
  pub magic1 : get_or bytes 1 0 ≡ protocol_magic.1
  pub magic2 : get_or bytes 2 0 ≡ protocol_magic.2
  pub magic3 : get_or bytes 3 0 ≡ protocol_magic.3
  pub version : get_or bytes 4 0 ≡ protocol_version
  pub type_min : min_message_type ≤ get_or bytes 5 0
  pub type_max : get_or bytes 5 0 ≤ max_message_type
  pub payload : read_u32_le (drop 10 bytes) ≤ max_packet_payload

pub check_header-Accepts : (bytes : List ℕ) → (check_header bytes ≡ PacketError.ok) ↔ Accepts bytes
unfolding check_header
check_header-Accepts bytes = (λ e. ground arith, λ a. ground arith)

-- The checks lose nothing: an accepted header is written back to the same 20 bytes.
pub header_bytes-header_fields :
    (bytes : List ℕ)
    → IsBytes bytes
    → Accepts bytes
    → header_bytes (header_fields bytes) ≡ take 20 bytes
unfolding header_bytes header_fields
header_bytes-header_fields
      (b0 ∷ b1 ∷ b2 ∷ b3 ∷ b4 ∷ b5 ∷ b6 ∷ b7 ∷ b8 ∷ b9 ∷ b10 ∷ b11 ∷ b12 ∷ b13 ∷ b14 ∷ b15 ∷ b16
        ∷ b17 ∷ b18 ∷ b19 ∷ rest)
      h a =
    rw
      (
        write_u16_le-read_u16_le b8 b9
            (b10 ∷ b11 ∷ b12 ∷ b13 ∷ b14 ∷ b15 ∷ b16 ∷ b17 ∷ b18 ∷ b19 ∷ rest) (omega arith)
            (omega arith),
        write_u32_le-read_u32_le b10 b11 b12 b13 (b14 ∷ b15 ∷ b16 ∷ b17 ∷ b18 ∷ b19 ∷ rest)
            (omega arith),
        write_u32_le-read_u32_le b14 b15 b16 b17 (b18 ∷ b19 ∷ rest) (omega arith),
        write_u16_le-read_u16_le b18 b19 rest (omega arith) (omega arith),
        a.magic0,
        a.magic1,
        a.magic2,
        a.magic3,
      )
      refl
header_bytes-header_fields _ h a = absurd (omega (arith, a.size))

-- And what was accepted is a header that the wire can carry.
pub header_fields-IsHeader :
    (bytes : List ℕ) → IsBytes bytes → Accepts bytes → IsHeader (header_fields bytes)
unfolding header_fields
header_fields-IsHeader
      (b0 ∷ b1 ∷ b2 ∷ b3 ∷ b4 ∷ b5 ∷ b6 ∷ b7 ∷ b8 ∷ b9 ∷ b10 ∷ b11 ∷ b12 ∷ b13 ∷ b14 ∷ b15 ∷ b16
        ∷ b17 ∷ b18 ∷ b19 ∷ rest)
      h a =
    let seq =
      read_u16_le_sum b8 b9 (b10 ∷ b11 ∷ b12 ∷ b13 ∷ b14 ∷ b15 ∷ b16 ∷ b17 ∷ b18 ∷ b19 ∷ rest)
        (omega arith) in
    let crc =
      read_u32_le_sum b14 b15 b16 b17 (b18 ∷ b19 ∷ rest) (omega arith) (omega arith)
        (omega arith) in
    let rsvd2 = read_u16_le_sum b18 b19 rest (omega arith) in
    record {
      magic = refl;
      version = a.version;
      type_min = a.type_min;
      type_max = a.type_max;
      flags = omega arith;
      rsvd = omega arith;
      seq = omega arith;
      length = a.payload;
      crc32 = omega arith;
      rsvd2 = omega arith;
    }
header_fields-IsHeader _ h a = absurd (omega (arith, a.size))
