-- ===== src/Protocol/Encoder.antt =====
-- shared/protocol/encoder.h and encoder.cpp: a message to the packets that carry it.
pub mod Chunks
pub mod Emitting
pub mod Packets
pub mod Total
use espview.Base.{
  ℕ, zero, suc, ◌+◌, ◌-◌, ◌^◌, ◌%◌, Bool, true, false, not, ◌&&◌, ◌||◌, List, [], ◌∷◌, ◌++◌, Option,
  none, some, min, bit_and, bit_or, ltb, ◌==◌, ◌!=◌, if◌then◌else◌, length, take, drop, replicate,
}
use espview.Base.Word.{u16}
use espview.Protocol.Wire.{
  max_packet_payload, max_message_payload, flag_chunked, flag_ack_req, not_flag_chunked,
  min_message_type, max_message_type,
}
use espview.Protocol.Packet.{
  PacketError, PacketHeader, packet_header_size, make_header, encode_packet,
}
use espview.Protocol.Message.{Message, allowed_ack_request_type}

-- `SequenceCounter`: the value that `next` returns, and the counter afterwards.
abbrev pub next_seq : ℕ → ℕ × ℕ
next_seq seq = (seq, u16 (seq + 1))

-- The encoder's members: the counter, and the buffer of one packet that it reuses.
pub record Encoder : Type 0 where
  pub seq : ℕ
  pub packet_buf : List ℕ

abbrev pub init : ℕ → Encoder
init seq = record { seq = seq; packet_buf = replicate (packet_header_size + max_packet_payload) 0 }

-- What a call returns: the error, the encoder, and the state of the sink that it called.
pub record Sent {ℓ} (S : Type ℓ) : Type ℓ where
  pub error : PacketError
  pub encoder : Encoder
  pub sink_state : S

-- The checks at the top of `encodeStream`, in its order.
unfoldable pub check_message : Message → PacketError
check_message msg =
    if ltb msg.type min_message_type || ltb max_message_type msg.type
    then PacketError.invalid_type
    else if ltb max_message_payload (length msg.payload)
    then PacketError.message_too_large
    else if bit_and msg.flags flag_ack_req != 0 && not (allowed_ack_request_type msg.type)
    then PacketError.invalid_ack_req
    else if bit_and msg.flags flag_ack_req != 0 && ltb max_packet_payload (length msg.payload)
    then PacketError.invalid_ack_req
    else PacketError.ok

-- The flags of a packet: CHUNKED on all but the last.
unfoldable pub chunk_flags : ℕ → Bool → ℕ
chunk_flags flags last =
    if last
    then bit_and flags not_flag_chunked
    else bit_or (bit_and flags not_flag_chunked) flag_chunked

-- After a packet: stop on its error, or go on.
unfoldable pub go_on {ℓ} : {S : Type ℓ} → (Encoder → S → Option (Sent S)) → Sent S → Option (Sent S)
go_on next sent = elim sent.error [
  | PacketError.ok ↦ next sent.encoder sent.sink_state
  | _ ↦ some sent
]

-- A sink is told the bytes of a packet, and answers whether to go on.
module _ {ℓ} {S : Type ℓ} (sink : S → List ℕ → Bool × S) where
  -- What follows a call of `encodePacket`: its error, or the sink's word.
  unfoldable pub deliver : Encoder → ℕ → S → PacketError × Option (List ℕ) × ℕ → Sent S
  deliver enc n s (PacketError.ok, some buf, written) =
      let enc' = record enc { packet_buf = buf } in
      let (more, s') = sink s (take (packet_header_size + n) buf) in
      record {
        error = if more then PacketError.ok else PacketError.sink_aborted;
        encoder = enc';
        sink_state = s';
      }
  deliver enc n s (e, out, written) = record { error = e; encoder = enc; sink_state = s }

  -- One packet: header, `encodePacket`, sink.
  unfoldable pub emit : Message → ℕ → List ℕ → Encoder → S → Sent S
  unfolding deliver
  emit msg flags chunk enc s =
      let (seq, after) = next_seq enc.seq in
      let h = make_header msg.type flags seq (length chunk) in
      deliver (record enc { seq = after }) (length chunk) s
        (encode_packet h chunk (some enc.packet_buf))

  -- The loop over `offset`; `rest` is the payload from there on. The fuel bounds the turns.
  unfoldable pub send_chunks : ℕ → Message → List ℕ → Encoder → S → Option (Sent S)
  send_chunks zero msg rest enc s = none
  send_chunks (suc fuel) msg rest enc s =
      let n = min max_packet_payload (length rest) in
      let flags = chunk_flags msg.flags (n == length rest) in
      if length rest == 0
      then some (record { error = PacketError.ok; encoder = enc; sink_state = s })
      else go_on (send_chunks fuel msg (drop n rest)) (emit msg flags (take n rest) enc s)

  unfoldable pub encode_stream : Message → Encoder → S → Option (Sent S)
  encode_stream msg enc s = elim (check_message msg) [
    | PacketError.ok ↦
        if ltb max_packet_payload (length msg.payload)
        then send_chunks (suc (length msg.payload)) msg msg.payload enc s
        else some (emit msg (chunk_flags msg.flags true) msg.payload enc s)
    | e ↦ some (record { error = e; encoder = enc; sink_state = s })
  ]

-- The sink of `encode`: it keeps every packet.
abbrev pub collect : List (List ℕ) → List ℕ → Bool × List (List ℕ)
collect out bytes = (true, out ++ (bytes ∷ []))

unfoldable pub encode : Message → Encoder → Option (Sent (List (List ℕ)))
encode msg enc = encode_stream collect msg enc []
