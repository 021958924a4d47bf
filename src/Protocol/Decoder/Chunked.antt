-- ===== src/Protocol/Decoder/Chunked.antt =====
-- shared/protocol/decoder.cpp: the packets of a message, one by one, as the decoder takes them.
use espview.Base.{
  ℕ, ◌+◌, ◌^◌, ◌≤◌, ◌<◌, ◌≡◌, refl, inl, inr, arith, Bool, true, false, List, [], ◌∷◌, ◌++◌,
  bit_and, ◌==◌, ◌!=◌, !=_refl, Bool-cases, not_lt→ltb, length, append_assoc,
}
use espview.Base.Bytes.{
  IsByte, IsBytes, clear_low-low, clear_low_self, set_low-low, clear-set_low, clear_low-IsByte,
  set_low-IsByte,
}
use espview.Base.Word.{u16}
use espview.Protocol.Wire.{
  max_packet_payload, not_flag_chunked, flag_chunked, min_message_type, max_message_type,
}
use espview.Protocol.MessageType
use espview.Protocol.Packet.{
  PacketHeader, PacketError, packet_header_size, make_header, header_bytes,
}
use espview.Protocol.Packet.Header.{IsHeader}
use espview.Protocol.Packet.RoundTrip.{sealed}
use espview.Protocol.Message.{Message}
use espview.Protocol.Encoder.Chunks.{marked, packet_bytes, chunk_header}
use espview.Protocol.Decoder.{Core, take_packet, verified_turn}
use espview.Protocol.Decoder.Reassembly.{
  Event, packet, received, Assembly, abort_message, begin_message, start_assembly, continue_message,
  handle_verified_packet,
}
use espview.Protocol.Decoder.Run.{Run}
use espview.Protocol.Decoder.Packets.{between, arrived, packet_Run}

-- The flags of the message, as the decoder reports them.
abbrev pub plain : ℕ → ℕ
plain flags = bit_and flags not_flag_chunked

module _ (flags : ℕ) (v : IsByte flags) where
  marked-IsByte : (final : Bool) → IsByte (marked flags final)
  marked-IsByte true = clear_low-IsByte flags v
  marked-IsByte false = set_low-IsByte flags v

  plain-marked : (final : Bool) → plain (marked flags final) ≡ plain flags
  plain-marked true = clear_low_self flags v
  plain-marked false = clear-set_low flags v

  chunked-last : (bit_and (marked flags true) flag_chunked != 0) ≡ false
  chunked-last = rw (clear_low-low flags v) refl

  chunked-more : (bit_and (marked flags false) flag_chunked != 0) ≡ true
  chunked-more = rw (set_low-low flags v) refl

-- A packet with the sequence number that is expected is taken, of whatever type it is.
in_order :
    (body : List ℕ) (c : Core)
    → c.candidate.seq ≡ c.expected_seq
    → verified_turn PacketError.ok body c
      ≡ take_packet c (packet_header_size + c.candidate.length) body (packet c.candidate body ∷ [])
unfolding verified_turn
in_order body c e = elim (Bool-cases (c.candidate.type == MessageType.hello)) [
  | inl h ↦ rw h refl
  | inr h ↦ rw (h, e, !=_refl c.expected_seq) refl
]

-- The messages that the theorem is about.
pub record IsSendable (msg : Message) : Type 0 where
  pub type_min : min_message_type ≤ msg.type
  pub type_max : msg.type ≤ max_message_type
  pub flags : IsByte msg.flags

chunk_header-IsHeader :
    (msg : Message) (seq : ℕ) (final : Bool) (chunk : List ℕ)
    → IsSendable msg
    → seq < 2 ^ 16
    → length chunk ≤ max_packet_payload
    → IsHeader (chunk_header msg seq final chunk)
unfolding make_header
chunk_header-IsHeader msg seq final chunk v s l = record {
  magic = refl;
  version = refl;
  type_min = v.type_min;
  type_max = v.type_max;
  flags = marked-IsByte msg.flags v.flags final;
  rsvd = omega arith;
  seq = s;
  length = l;
  crc32 = omega arith;
  rsvd2 = omega arith;
}

-- The assembly that holds so much of the message.
abbrev pub partial : Message → List ℕ → Assembly
partial msg acc = record {
  assembling = true;
  type = msg.type;
  flags = plain msg.flags;
  payload = acc;
}

abbrev pub nothing : Assembly
nothing = record { assembling = false; type = 0; flags = 0; payload = [] }

module _ (max_payload seq : ℕ) (msg : Message) (chunk : List ℕ) (v : IsByte msg.flags) where
  pub handle : Bool → Assembly → Assembly × List Event
  handle final a =
      handle_verified_packet max_payload (sealed (chunk_header msg seq final chunk) chunk) chunk a

  pub handle_single :
      (a : Assembly)
      → a.assembling ≡ false
      → handle true a
        ≡ (a, received (record { type = msg.type; flags = plain msg.flags; payload = chunk }) ∷ [])
  unfolding handle handle_verified_packet begin_message make_header
  handle_single a e = rw (e, chunked-last msg.flags v, plain-marked msg.flags v true) refl

  pub handle_first :
      (a : Assembly)
      → a.assembling ≡ false
      → length chunk ≤ max_payload
      → handle false a ≡ (partial msg chunk, [])
  unfolding handle handle_verified_packet begin_message start_assembly make_header
  handle_first a e l =
      rw
        (
          e,
          chunked-more msg.flags v,
          plain-marked msg.flags v false,
          not_lt→ltb max_payload (length chunk) l,
        )
        refl

  pub handle_next :
      (acc : List ℕ)
      → length acc + length chunk ≤ max_payload
      → handle false (partial msg acc) ≡ (partial msg (acc ++ chunk), [])
  unfolding handle handle_verified_packet continue_message make_header
  handle_next acc l =
      rw
        (
          plain-marked msg.flags v false,
          !=_refl msg.type,
          !=_refl (plain msg.flags),
          chunked-more msg.flags v,
          not_lt→ltb max_payload (length acc + length chunk) l,
        )
        refl

  pub handle_last :
      (acc : List ℕ)
      → length acc + length chunk ≤ max_payload
      → handle true (partial msg acc) ≡ (
        nothing,
        received (record { type = msg.type; flags = plain msg.flags; payload = acc ++ chunk }) ∷ [],
      )
  unfolding handle handle_verified_packet continue_message abort_message make_header
  handle_last acc l =
      rw
        (
          plain-marked msg.flags v true,
          !=_refl msg.type,
          !=_refl (plain msg.flags),
          chunked-last msg.flags v,
          not_lt→ltb max_payload (length acc + length chunk) l,
        )
        refl

  -- The turns that take the chunk's packet.
  pub chunk_Run :
      (final : Bool) (candidate : PacketHeader) (a : Assembly) (out : Assembly × List Event)
      (rest : List ℕ) {left : List ℕ} {c' : Core} {events : List Event}
      → IsSendable msg
      → IsBytes chunk
      → seq < 2 ^ 16
      → length chunk ≤ max_packet_payload
      → handle final a ≡ out
      → let h = chunk_header msg seq final chunk in
        Run rest (between max_payload (sealed h chunk) out.0 (u16 (seq + 1))) left c' events
        → Run
            (packet_bytes h chunk ++ rest)
            (between max_payload candidate a seq)
            left
            c'
            (packet (sealed h chunk) chunk ∷ (out.1 ++ events))
  unfolding handle packet_bytes make_header
  chunk_Run final candidate a out rest {left} {c'} {events} s b l small e r =
      let h = chunk_header msg seq final chunk in
      let valid = chunk_header-IsHeader msg seq final chunk s l small in
      let c = between max_payload candidate a seq in
      let t =
        take_packet (arrived h chunk c) (packet_header_size + h.length) chunk
          (packet (sealed h chunk) chunk ∷ []) in
      let r' : Run rest (between max_payload (sealed h chunk) (handle final a).0 (u16 (seq + 1)))
          left c' events =
        rw e r in
      rw (append_assoc (header_bytes (sealed h chunk)) chunk rest, ← e)
        (packet_Run h chunk rest valid b refl c t refl (in_order chunk (arrived h chunk c) refl)
          refl refl r')
