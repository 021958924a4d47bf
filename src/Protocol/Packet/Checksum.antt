-- ===== src/Protocol/Packet/Checksum.antt =====
-- shared/protocol/packet.cpp: the check of the CRC on a changed packet.
use espview.Base.{ℕ, ◌≡◌, ◌≢◌, ◌∙◌, arith, List, ◌∷◌, ◌++◌, length, length-append}
use espview.Base.Bytes.{IsByte, IsBytes}
use espview.Protocol.Crc32.{crc32_init, crc32_final_xor, crc32_update}
use espview.Protocol.Crc32.Reference.{crc32_update-lt}
use espview.Protocol.Crc32.Detect.{crc32_update_one_byte, bit_xor_cancel_left}
use espview.Base.Xor.{bit_xor_comm}
use espview.Protocol.Packet.{
  PacketHeader, PacketError, crc_covered_header, compute_packet_crc, verify_packet_crc,
}
use espview.Protocol.Packet.Header.{IsHeader, crc_covered_header-IsBytes}

compute_packet_crc_one_byte :
    (h : PacketHeader) (a b : ℕ) (xs ys : List ℕ)
    → IsHeader h
    → IsByte a
    → IsByte b
    → IsBytes xs
    → IsBytes ys
    → a ≢ b
    → compute_packet_crc h (xs ++ (a ∷ ys)) ≢ compute_packet_crc h (xs ++ (b ∷ ys))
unfolding compute_packet_crc
compute_packet_crc_one_byte h a b xs ys v ha hb hx hy ne e =
    crc32_update_one_byte (crc32_update crc32_init (crc_covered_header h)) a b xs ys
      (crc32_update-lt crc32_init (crc_covered_header h) (omega arith)
        (crc_covered_header-IsBytes h v))
      ha hb hx hy ne
      (bit_xor_cancel_left crc32_final_xor _ _
        (bit_xor_comm crc32_final_xor _ ∙ e ∙ bit_xor_comm _ crc32_final_xor))

length_one_byte : (a b : ℕ) (xs ys : List ℕ) → length (xs ++ (a ∷ ys)) ≡ length (xs ++ (b ∷ ys))
length_one_byte a b xs ys = omega (arith, length-append xs (a ∷ ys), length-append xs (b ∷ ys))

-- A packet whose payload had one byte changed on the way is refused as a CRC mismatch.
pub verify_packet_crc_one_byte :
    (h : PacketHeader) (a b : ℕ) (xs ys : List ℕ)
    → IsHeader h
    → IsByte a
    → IsByte b
    → IsBytes xs
    → IsBytes ys
    → a ≢ b
    → verify_packet_crc h (xs ++ (a ∷ ys)) ≡ PacketError.ok
    → verify_packet_crc h (xs ++ (b ∷ ys)) ≡ PacketError.crc_mismatch
unfolding verify_packet_crc
verify_packet_crc_one_byte h a b xs ys v ha hb hx hy ne e =
    ground
      (arith, length_one_byte a b xs ys, compute_packet_crc_one_byte h a b xs ys v ha hb hx hy ne)
