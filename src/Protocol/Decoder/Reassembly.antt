-- ===== src/Protocol/Decoder/Reassembly.antt =====
-- shared/protocol/decoder.cpp: from packets that were verified to messages.
use espview.Base.{
  ℕ, ◌+◌, Bool, true, false, ◌&&◌, ◌||◌, List, [], ◌∷◌, ◌++◌, bit_and, ltb, ◌!=◌, if◌then◌else◌,
  length,
}
use espview.Protocol.Wire.{flag_chunked, not_flag_chunked}
use espview.Protocol.Packet.{PacketHeader}
use espview.Protocol.Message.{Message}

pub data DecoderError : Type 0 where
  need_more_data bad_magic bad_version bad_type bad_length crc_mismatch : DecoderError
  sequence_gap chunk_type_mismatch chunk_violation message_too_large : DecoderError

-- The three callbacks.
pub data Event : Type 0 where
  received : Message → Event
  packet : PacketHeader → List ℕ → Event
  failed : DecoderError → Event

-- The message in assembly.
pub record Assembly : Type 0 where
  pub assembling : Bool
  pub type : ℕ
  pub flags : ℕ
  pub payload : List ℕ

unfoldable pub abort_message : Assembly → Assembly
abort_message a = record { assembling = false; type = 0; flags = 0; payload = [] }

abbrev pub is_chunked : PacketHeader → Bool
is_chunked h = bit_and h.flags flag_chunked != 0

abbrev pub logical_flags : PacketHeader → ℕ
logical_flags h = bit_and h.flags not_flag_chunked

module _ (max_payload : ℕ) (h : PacketHeader) (payload : List ℕ) where
  unfoldable pub start_assembly : Assembly → Assembly × List Event
  unfolding abort_message
  start_assembly a =
      if ltb max_payload h.length
      then (abort_message a, failed DecoderError.message_too_large ∷ [])
      else (
        record { assembling = true; type = h.type; flags = logical_flags h; payload = payload },
        [],
      )

  -- The packet begins a message, or is one.
  unfoldable pub begin_message : Assembly → Assembly × List Event
  unfolding start_assembly
  begin_message a =
      if is_chunked h
      then start_assembly a
      else (a, received (record { type = h.type; flags = logical_flags h; payload = payload }) ∷ [])

  -- The packet does not go with the message in assembly.
  unfoldable pub break_message : Assembly → Assembly × List Event
  unfolding begin_message
  break_message a =
      let e =
        if h.type != a.type && is_chunked h
        then DecoderError.chunk_type_mismatch
        else DecoderError.chunk_violation in
      let (a', events) = begin_message (abort_message a) in (a', failed e ∷ events)

  -- The packet goes on with the message in assembly.
  unfoldable pub continue_message : Assembly → Assembly × List Event
  unfolding abort_message
  continue_message a =
      let whole = a.payload ++ payload in
      if ltb max_payload (length a.payload + h.length)
      then (abort_message a, failed DecoderError.message_too_large ∷ [])
      else if is_chunked h
      then (record a { payload = whole }, [])
      else (
        abort_message a,
        received (record { type = a.type; flags = a.flags; payload = whole }) ∷ [],
      )

  unfoldable pub handle_verified_packet : Assembly → Assembly × List Event
  unfolding begin_message break_message continue_message
  handle_verified_packet a =
      if a.assembling
      then (if h.type != a.type || logical_flags h != a.flags
          then break_message a
          else continue_message a)
      else begin_message a
