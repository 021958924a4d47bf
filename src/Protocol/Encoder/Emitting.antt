-- ===== src/Protocol/Encoder/Emitting.antt =====
-- shared/protocol/encoder.cpp: one packet of the encoder, as the sink gets it.
use espview.Base.{
  ℕ, ◌+◌, ◌^◌, ◌≤◌, ◌<◌, ◌≡◌, refl, sym, ap, ◌∙◌, arith, List, [], ◌∷◌, ◌++◌, length, take, drop,
  length-append, length-drop, take-at, append_assoc, length-replicate,
}
use espview.Base.Word.{u16}
use espview.Protocol.Wire.{max_packet_payload}
use espview.Protocol.Packet.{
  PacketHeader, PacketError, packet_header_size, make_header, header_bytes,
}
use espview.Protocol.Packet.Header.{length-header_bytes}
use espview.Protocol.Packet.RoundTrip.{sealed, encode_packet-ok}
use espview.Protocol.Message.{Message}
use espview.Protocol.Encoder.{Encoder, Sent, init, collect, emit, deliver}
use espview.Protocol.Encoder.Chunks.{packet_bytes}

-- The members hold what the constructor set up: a counter of 16 bits and a buffer of one packet.
pub record IsReady (enc : Encoder) : Type 0 where
  pub seq : enc.seq < 2 ^ 16
  pub room : length enc.packet_buf ≡ packet_header_size + max_packet_payload

pub init-IsReady : (seq : ℕ) → seq < 2 ^ 16 → IsReady (init seq)
init-IsReady seq h = record {
  seq = h;
  room = length-replicate {A = ℕ} (packet_header_size + max_packet_payload) 0;
}

length-packet_bytes :
    (h : PacketHeader) (payload : List ℕ)
    → length (packet_bytes h payload) ≡ packet_header_size + length payload
unfolding packet_bytes
length-packet_bytes h payload = omega (
  arith,
  length-append (header_bytes (sealed h payload)) payload,
  length-header_bytes (sealed h payload),
)

-- The buffer after a packet of the chunk was made in it.
unfoldable pub emitted_buf : PacketHeader → List ℕ → List ℕ → List ℕ
emitted_buf h chunk buf =
    header_bytes (sealed h chunk) ++ (chunk ++ drop (packet_header_size + length chunk) buf)

length-emitted_buf :
    (h : PacketHeader) (chunk buf : List ℕ)
    → packet_header_size + length chunk ≤ length buf
    → length (emitted_buf h chunk buf) ≡ length buf
unfolding emitted_buf
length-emitted_buf h chunk buf fits = omega (
  arith,
  length-append (header_bytes (sealed h chunk))
      (chunk ++ drop (packet_header_size + length chunk) buf),
  length-header_bytes (sealed h chunk),
  length-append chunk (drop (packet_header_size + length chunk) buf),
  length-drop (packet_header_size + length chunk) buf,
)

pub take-emitted_buf :
    (h : PacketHeader) (chunk buf : List ℕ)
    → take (packet_header_size + length chunk) (emitted_buf h chunk buf) ≡ packet_bytes h chunk
unfolding emitted_buf packet_bytes
take-emitted_buf h chunk buf =
    rw
      (← append_assoc (header_bytes (sealed h chunk)) chunk
        (drop (packet_header_size + length chunk) buf))
      (take-at (packet_header_size + length chunk) (header_bytes (sealed h chunk) ++ chunk)
        (drop (packet_header_size + length chunk) buf) (sym (length-packet_bytes h chunk)))

-- One packet goes out: the sink gets its bytes, and the counter moves by one.
pub emit-collect :
    (msg : Message) (flags : ℕ) (chunk : List ℕ) (enc : Encoder) (out : List (List ℕ))
    → length chunk ≤ max_packet_payload
    → IsReady enc
    → let h = make_header msg.type flags enc.seq (length chunk) in
      emit collect msg flags chunk enc out ≡ record {
        error = PacketError.ok;
        encoder = record {
          seq = u16 (enc.seq + 1);
          packet_buf = emitted_buf h chunk enc.packet_buf;
        };
        sink_state = out ++ (packet_bytes h chunk ∷ []);
      }
unfolding emit emitted_buf make_header
emit-collect msg flags chunk enc out small r =
    let h = make_header msg.type flags enc.seq (length chunk) in
    let counted : Encoder = record enc { seq = u16 (enc.seq + 1) } in
    ap (deliver collect counted (length chunk) out)
      (encode_packet-ok h chunk enc.packet_buf refl small (omega (arith, r.room)))
    ∙ ap
        (λ (bytes : List ℕ).
          let sent : Sent (List (List ℕ)) = record {
            error = PacketError.ok;
            encoder = record {
              seq = u16 (enc.seq + 1);
              packet_buf = emitted_buf h chunk enc.packet_buf;
            };
            sink_state = out ++ (bytes ∷ []);
          } in
          sent)
        (take-emitted_buf h chunk enc.packet_buf)

pub emitted-IsReady :
    (h : PacketHeader) (chunk : List ℕ) (enc : Encoder)
    → length chunk ≤ max_packet_payload
    → IsReady enc
    → IsReady (record { seq = u16 (enc.seq + 1); packet_buf = emitted_buf h chunk enc.packet_buf })
emitted-IsReady h chunk enc small r = record {
  seq = omega arith;
  room = omega (arith, r.room, length-emitted_buf h chunk enc.packet_buf (omega (arith, r.room)));
}
