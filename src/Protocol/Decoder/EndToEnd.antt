-- ===== src/Protocol/Decoder/EndToEnd.antt =====
-- shared/protocol/decoder.cpp and encoder.cpp: the encoder's packets, fed to the decoder.
use espview.Base.{
  ℕ, ◌+◌, ◌^◌, ◌≤◌, ◌<◌, ◌≡◌, refl, ap, ◌∙◌, arith, false, List, [], ◌∷◌, ◌++◌, some, length,
}
use espview.Base.Bytes.{IsByte, IsBytes}
use espview.Base.Word.{u16}
use espview.Protocol.Wire.{min_message_type, max_message_type, max_message_payload}
use espview.Protocol.Packet.{PacketError, header_bytes}
use espview.Protocol.Message.{Message}
use espview.Protocol.Encoder.{Encoder, check_message, encode}
use espview.Protocol.Encoder.Chunks.{Chunks, last, more, concat, packet_bytes, packets}
use espview.Protocol.Encoder.Emitting.{IsReady}
use espview.Protocol.Encoder.Packets.{encode-packets}
use espview.Protocol.Decoder.{State, Core, StreamDecoder, pending, feed}
use espview.Protocol.Decoder.Reassembly.{Event, received}
use espview.Protocol.Decoder.Run.{IsValid, Ran, feed-Run}
use espview.Protocol.Decoder.Pieces.{Run-unique}
use espview.Protocol.Decoder.Packets.{between}
use espview.Protocol.Decoder.Chunked.{IsSendable}
use espview.Protocol.Decoder.RoundTrip.{Takes-message, seen, whole_message}

-- The decoder stands between two messages, and expects the sequence number.
pub record IsIdle (d : StreamDecoder) (seq : ℕ) : Type 0 where
  pub valid : IsValid d
  pub state : d.core.state ≡ State.sync
  pub pending : pending d ≡ []
  pub assembly : d.core.assembly.assembling ≡ false
  pub expected : d.core.expected_seq ≡ seq

-- The message went the whole way: what was encoded, what was reported, and where both ends stand.
pub record Arrives (msg : Message) (enc : Encoder) (d : StreamDecoder) : Type 0 where
  pub encoder : Encoder
  pub chunks : List (List ℕ)
  pub split : Chunks msg.payload chunks
  pub encoded :
      encode msg enc
      ≡ some (record {
        error = PacketError.ok;
        encoder = encoder;
        sink_state = packets msg enc.seq chunks;
      })
  pub decoder : StreamDecoder
  pub decoded :
      feed d (concat (packets msg enc.seq chunks))
      ≡ some (decoder, seen msg enc.seq chunks ++ (received (whole_message msg msg.payload) ∷ []))
  pub ready : IsReady encoder
  pub idle : IsIdle decoder encoder.seq

core_between :
    (c : Core) (seq : ℕ)
    → c.state ≡ State.sync
    → c.expected_seq ≡ seq
    → c ≡ between c.max_payload c.candidate c.assembly seq
core_between c seq e k = rw (← e, ← k) refl

feed_some :
    (d : StreamDecoder) (bytes : List ℕ)
    → 0 < length bytes
    → IsValid d
    → Ran (pending d ++ bytes) d.core (feed d bytes)
feed_some d [] p v = absurd (omega arith)
feed_some d (b ∷ bytes) p v = feed-Run d b bytes v

packets_not_empty :
    {payload : List ℕ} {chunks : List (List ℕ)} (msg : Message) (seq : ℕ)
    → Chunks payload chunks
    → 0 < length (concat (packets msg seq chunks))
unfolding packets packet_bytes header_bytes
packets_not_empty msg seq (last payload small) = omega arith
packets_not_empty msg seq (more chunk rest e full p cs) = omega arith

-- What `feed` makes of the packets of a message.
feed-packets :
    (msg : Message) (seq : ℕ) (d : StreamDecoder) (chunks : List (List ℕ))
    → IsSendable msg
    → IsBytes msg.payload
    → seq < 2 ^ 16
    → length msg.payload ≤ d.core.max_payload
    → IsIdle d seq
    → Chunks msg.payload chunks
    → (decoder : StreamDecoder) × (feed d (concat (packets msg seq chunks))
        ≡ some (decoder, seen msg seq chunks ++ (received (whole_message msg msg.payload) ∷ [])))
      × IsIdle decoder (u16 (seq + length chunks))
feed-packets msg seq d chunks s b l fits i cs =
    let t =
      Takes-message d.core.max_payload msg s seq d.core.assembly msg.payload chunks l i.assembly cs
        b fits in
    let r = feed_some d (concat (packets msg seq chunks)) (packets_not_empty msg seq cs) i.valid in
    let run = rw (i.pending, core_between d.core seq i.state i.expected) at r.run in
    let (left, core, events) = Run-unique run (t.run d.core.candidate) in
    (
      r.decoder,
      r.returns ∙ ap (λ (es : List Event). some (r.decoder, es)) events,
      record {
        valid = r.valid;
        state = ap (λ (c : Core). c.state) core;
        pending = left;
        assembly = ap (λ (c : Core). c.assembly.assembling) core ∙ t.idle;
        expected = ap (λ (c : Core). c.expected_seq) core;
      },
    )

checked_bounds :
    (msg : Message)
    → check_message msg ≡ PacketError.ok
    → (min_message_type ≤ msg.type)
      × (msg.type ≤ max_message_type)
      × (length msg.payload ≤ max_message_payload)
unfolding check_message
checked_bounds msg e = ground arith

checked-IsSendable :
    (msg : Message) → IsByte msg.flags → check_message msg ≡ PacketError.ok → IsSendable msg
checked-IsSendable msg f e =
    let (low, high, size) = checked_bounds msg e in
    record { type_min = low; type_max = high; flags = f }

-- A message that the encoder accepts.
pub encode-feed :
    (msg : Message) (enc : Encoder) (d : StreamDecoder)
    → check_message msg ≡ PacketError.ok
    → IsByte msg.flags
    → IsBytes msg.payload
    → IsReady enc
    → IsIdle d enc.seq
    → length msg.payload ≤ d.core.max_payload
    → Arrives msg enc d
encode-feed msg enc d c f b r i fits =
    let (chunks, cs, (buf, room, eq)) = encode-packets msg enc c r in
    let (decoder, fed, idle) =
      feed-packets msg enc.seq d chunks (checked-IsSendable msg f c) b r.seq fits i cs in
    record {
      encoder = record { seq = u16 (enc.seq + length chunks); packet_buf = buf };
      chunks = chunks;
      split = cs;
      encoded = eq;
      decoder = decoder;
      decoded = fed;
      ready = record { seq = omega arith; room = room };
      idle = idle;
    }
