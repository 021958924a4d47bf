-- ===== src/Protocol/Packet/RoundTrip.antt =====
-- shared/protocol/packet.cpp: a packet that was encoded, and what is decoded of it.
use espview.Base.{
  ℕ, ◌+◌, ◌^◌, ◌≤◌, ◌<◌, ◌≡◌, refl, sym, ap, ◌∙◌, arith, List, ◌++◌, some, length, take, drop,
  take-append-drop, length-drop, length-take, drop-drop, take-at, drop-at,
}
use native.Mathlib.Nat.{zero-add}
use espview.Base.Bits.{bit_xor-lt}
use espview.Base.Bytes.{IsBytes, overwrite, overwrite-at}
use espview.Protocol.Wire.{max_packet_payload}
use espview.Protocol.ByteOrder.{write_u16_le, write_u32_le}
use espview.Protocol.Crc32.{crc32_init, crc32_final_xor}
use espview.Protocol.Crc32.Reference.{crc32_update-lt}
use espview.Protocol.Packet.{
  PacketHeader, PacketError, empty_header, packet_header_size, crc_covered_header, header_bytes,
  header_fields, check_header, encode_packet, decode_header, write_packet, compute_packet_crc,
  verify_packet_crc,
}
use espview.Protocol.Packet.Header.{
  IsHeader, length-header_bytes, crc_covered_header-IsBytes, check_header-header_bytes,
  header_fields-header_bytes,
}

-- The header as it goes over the wire, its CRC filled in.
abbrev pub sealed : PacketHeader → List ℕ → PacketHeader
sealed h payload = record h { crc32 = compute_packet_crc h payload }

pub compute_packet_crc-lt :
    (h : PacketHeader) (payload : List ℕ)
    → IsHeader h
    → IsBytes payload
    → compute_packet_crc h payload < 2 ^ 32
unfolding compute_packet_crc
compute_packet_crc-lt h payload v b =
    bit_xor-lt 32 _ crc32_final_xor
      (crc32_update-lt _ payload
        (crc32_update-lt crc32_init (crc_covered_header h) (omega arith)
          (crc_covered_header-IsBytes h v))
        b)
      (omega arith)

-- The CRC field is not covered by the CRC.
pub compute_packet_crc_blank :
    (h : PacketHeader) (crc : ℕ) (payload : List ℕ)
    → compute_packet_crc (record h { crc32 = crc }) payload ≡ compute_packet_crc h payload
unfolding compute_packet_crc crc_covered_header
compute_packet_crc_blank h crc payload = refl

pub sealed-IsHeader :
    (h : PacketHeader) (payload : List ℕ)
    → IsHeader h
    → IsBytes payload
    → IsHeader (sealed h payload)
sealed-IsHeader h payload v b = record {
  magic = v.magic;
  version = v.version;
  type_min = v.type_min;
  type_max = v.type_max;
  flags = v.flags;
  rsvd = v.rsvd;
  seq = v.seq;
  length = v.length;
  crc32 = compute_packet_crc-lt h payload v b;
  rsvd2 = v.rsvd2;
}

fill_packet :
    (head payload out : List ℕ)
    → length head ≡ packet_header_size
    → packet_header_size + length payload ≤ length out
    → overwrite packet_header_size payload (overwrite 0 head out)
      ≡ head ++ (payload ++ drop (packet_header_size + length payload) out)
fill_packet head payload out e fits =
    ap (λ ws. overwrite packet_header_size payload (head ++ ws)) split
    ∙ overwrite-at packet_header_size head (take (length payload) (drop 20 out)) payload
        (drop (packet_header_size + length payload) out) (sym e)
        (omega (arith, length-take (length payload) (drop 20 out), length-drop 20 out))
  where
    split :
        drop (0 + length head) out
        ≡ take (length payload) (drop 20 out) ++ drop (packet_header_size + length payload) out
    split =
        rw (zero-add, e, ← drop-drop 20 (length payload) out)
          (sym (take-append-drop (length payload) (drop 20 out)))

seal_packet :
    (h : PacketHeader) (crc : ℕ) (rest : List ℕ)
    → overwrite 14 (write_u32_le crc) (header_bytes (record h { crc32 = 0 }) ++ rest)
      ≡ header_bytes (record h { crc32 = crc }) ++ rest
unfolding header_bytes write_u16_le write_u32_le
seal_packet h crc rest = refl

-- The buffer holds the sealed header, the payload, and what stood behind them.
pub write_packet_lem :
    (h : PacketHeader) (payload out : List ℕ)
    → packet_header_size + length payload ≤ length out
    → write_packet h payload out
      ≡ header_bytes (sealed h payload)
        ++ (payload ++ drop (packet_header_size + length payload) out)
unfolding write_packet
write_packet_lem h payload out fits =
    ap (λ ws. overwrite 14 (write_u32_le (compute_packet_crc (record h { crc32 = 0 }) payload)) ws)
      (fill_packet (header_bytes (record h { crc32 = 0 })) payload out
        (length-header_bytes (record h { crc32 = 0 })) fits)
    ∙ seal_packet h (compute_packet_crc (record h { crc32 = 0 }) payload)
        (payload ++ drop (packet_header_size + length payload) out)

-- `encodePacket` succeeds on every wire header whose length is the payload's, given the room, and
-- writes the packet and its size.
pub encode_packet-ok :
    (h : PacketHeader) (payload out : List ℕ)
    → h.length ≡ length payload
    → length payload ≤ max_packet_payload
    → packet_header_size + length payload ≤ length out
    → encode_packet h payload (some out) ≡ (
      PacketError.ok,
      some (
          header_bytes (sealed h payload)
          ++ (payload ++ drop (packet_header_size + length payload) out)),
      packet_header_size + length payload,
    )
unfolding encode_packet
encode_packet-ok h payload out e small fits = ground (arith, write_packet_lem h payload out fits)

pub decode_header-ok :
    (bytes : List ℕ) (out : PacketHeader)
    → check_header bytes ≡ PacketError.ok
    → decode_header (some bytes) (some out) ≡ (PacketError.ok, some (header_fields bytes))
unfolding decode_header
decode_header-ok bytes out e = rw (e, decode_header) refl

pub verify_packet_crc-sealed :
    (h : PacketHeader) (payload : List ℕ)
    → h.length ≡ length payload
    → verify_packet_crc (sealed h payload) payload ≡ PacketError.ok
unfolding verify_packet_crc
verify_packet_crc-sealed h payload e =
    ground (arith, compute_packet_crc_blank h (compute_packet_crc h payload) payload)

pub payload_of_sealed :
    (h : PacketHeader) (payload rest : List ℕ)
    → h.length ≡ length payload
    → take h.length (drop packet_header_size (header_bytes (sealed h payload) ++ (payload ++ rest)))
      ≡ payload
payload_of_sealed h payload rest e =
    rw
      (drop-at packet_header_size (header_bytes (sealed h payload)) (payload ++ rest)
        (sym (length-header_bytes (sealed h payload))))
      (take-at h.length payload rest e)

-- What the decoder makes of a sealed packet: the checks pass, the fields and the payload come back,
-- and the CRC verifies.
pub decode_sealed :
    (h : PacketHeader) (payload rest : List ℕ)
    → IsHeader h
    → IsBytes payload
    → h.length ≡ length payload
    → let bytes = header_bytes (sealed h payload) ++ (payload ++ rest) in
      (decode_header (some bytes) (some empty_header) ≡ (PacketError.ok, some (sealed h payload)))
      × (take h.length (drop packet_header_size bytes) ≡ payload)
      × (verify_packet_crc (sealed h payload) payload ≡ PacketError.ok)
decode_sealed h payload rest v b e =
    let bytes : List ℕ = header_bytes (sealed h payload) ++ (payload ++ rest) in
    let valid = sealed-IsHeader h payload v b in
    (
      decode_header-ok bytes empty_header
            (check_header-header_bytes (sealed h payload) (payload ++ rest) valid)
          ∙ ap (λ (g : PacketHeader). (PacketError.ok, some g))
              (header_fields-header_bytes (sealed h payload) (payload ++ rest) valid),
      payload_of_sealed h payload rest e,
      verify_packet_crc-sealed h payload e,
    )
