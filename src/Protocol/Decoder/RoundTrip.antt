-- ===== src/Protocol/Decoder/RoundTrip.antt =====
-- shared/protocol/decoder.cpp and encoder.cpp: the decoder at what the encoder sends for a message.
use espview.Base.{
  ℕ, ◌+◌, ◌^◌, ◌≤◌, ◌<◌, ◌≡◌, refl, sym, ap, ◌∙◌, arith, true, false, List, [], ◌∷◌, ◌++◌, length,
  length-append, append_assoc, All-split,
}
use espview.Base.Bytes.{IsByte, IsBytes}
use espview.Base.Word.{u16}
use espview.Protocol.Wire.{max_packet_payload}
use espview.Protocol.Packet.{PacketHeader}
use espview.Protocol.Packet.RoundTrip.{sealed}
use espview.Protocol.Message.{Message}
use espview.Protocol.Encoder.Packets.{is_empty-Chunks, count_on}
use espview.Protocol.Encoder.Chunks.{Chunks, last, more, is_empty, concat, chunk_header, packets}
use espview.Protocol.Decoder.{turn_at, sync_turn}
use espview.Protocol.Decoder.Reassembly.{Event, packet, received, Assembly}
use espview.Protocol.Decoder.Scan.{scan}
use espview.Protocol.Decoder.Run.{Run, stop}
use espview.Protocol.Decoder.Packets.{between}
use espview.Protocol.Decoder.Chunked.{
  IsSendable, chunk_Run, handle, handle_first, handle_last, handle_next, handle_single, nothing,
  partial, plain,
}

-- The decoder's report of each packet.
unfoldable pub seen : Message → ℕ → List (List ℕ) → List Event
seen msg seq [] = []
seen msg seq (chunk ∷ chunks) =
    packet (sealed (chunk_header msg seq (is_empty chunks) chunk) chunk) chunk
    ∷ seen msg (u16 (seq + 1)) chunks

abbrev pub whole_message : Message → List ℕ → Message
whole_message msg payload = record { type = msg.type; flags = plain msg.flags; payload = payload }

-- What a run over the packets comes to: the reports and the message, and the decoder between packets.
pub record Takes (max_payload seq : ℕ) (msg : Message) (a : Assembly) (chunks : List (List ℕ))
    (payload : List ℕ) : Type 0 where
  pub candidate : PacketHeader
  pub assembly : Assembly
  pub idle : assembly.assembling ≡ false
  pub run :
      (candidate' : PacketHeader)
      → Run
          (concat (packets msg seq chunks))
          (between max_payload candidate' a seq)
          []
          (between max_payload candidate assembly (u16 (seq + length chunks)))
          (seen msg seq chunks ++ (received (whole_message msg payload) ∷ []))

-- Without bytes the decoder waits.
Run-nothing :
    (max_payload seq : ℕ) (candidate : PacketHeader) (a : Assembly)
    → Run [] (between max_payload candidate a seq) [] (between max_payload candidate a seq) []
unfolding turn_at sync_turn scan
Run-nothing max_payload seq candidate a = stop refl refl refl refl

module _ (max_payload : ℕ) (msg : Message) (s : IsSendable msg) where
  Takes-last :
      (seq : ℕ) (a : Assembly) (chunk payload : List ℕ) (after : Assembly)
      → seq < 2 ^ 16
      → IsBytes chunk
      → length chunk ≤ max_packet_payload
      → after.assembling ≡ false
      → handle max_payload seq msg chunk s.flags true a
        ≡ (after, received (whole_message msg payload) ∷ [])
      → Takes max_payload seq msg a (chunk ∷ []) payload
  unfolding packets seen
  Takes-last seq a chunk payload after l b small i e = record {
    candidate = sealed (chunk_header msg seq true chunk) chunk;
    assembly = after;
    idle = i;
    run = λ candidate'.
        chunk_Run max_payload seq msg chunk s.flags true candidate' a
          (after, received (whole_message msg payload) ∷ []) [] s b l small e
          (Run-nothing max_payload (u16 (seq + 1)) (sealed (chunk_header msg seq true chunk) chunk)
            after);
  }

  Takes-more :
      (seq : ℕ) (a : Assembly) (chunk payload : List ℕ) (chunks : List (List ℕ)) (after : Assembly)
      → seq < 2 ^ 16
      → IsBytes chunk
      → length chunk ≤ max_packet_payload
      → is_empty chunks ≡ false
      → handle max_payload seq msg chunk s.flags false a ≡ (after, [])
      → Takes max_payload (u16 (seq + 1)) msg after chunks payload
      → Takes max_payload seq msg a (chunk ∷ chunks) payload
  unfolding packets seen
  Takes-more seq a chunk payload chunks after l b small n e t = record {
    candidate = t.candidate;
    assembly = t.assembly;
    idle = t.idle;
    run = λ candidate'.
        rw (n, ← count_on seq (length chunks))
          (chunk_Run max_payload seq msg chunk s.flags false candidate' a (after, [])
            (concat (packets msg (u16 (seq + 1)) chunks)) s b l small e
            (t.run (sealed (chunk_header msg seq false chunk) chunk)));
  }

  -- The rest of a message of which a part was assembled.
  Takes-rest :
      (seq : ℕ) (acc rest : List ℕ) (chunks : List (List ℕ))
      → seq < 2 ^ 16
      → Chunks rest chunks
      → IsBytes rest
      → length acc + length rest ≤ max_payload
      → Takes max_payload seq msg (partial msg acc) chunks (acc ++ rest)
  Takes-rest seq acc _ _ l (last payload small) b fits =
      Takes-last seq (partial msg acc) payload (acc ++ payload) nothing l b small refl
        (handle_last max_payload seq msg payload s.flags acc fits)
  Takes-rest seq acc _ _ l (more {payload = payload} chunk rest {chunks = chunks} e full p cs) b
        fits =
      let size = length-append chunk rest in
      let all : length payload ≡ length (chunk ++ rest) = ap length e in
      let (b1, b2) = All-split IsByte chunk rest (rw e at b) in
      let joined : acc ++ chunk ++ rest ≡ acc ++ payload =
        append_assoc acc chunk rest ∙ ap (λ (ws : List ℕ). acc ++ ws) (sym e) in
      let later =
        Takes-rest (u16 (seq + 1)) (acc ++ chunk) rest chunks (omega arith) cs b2
          (omega (arith, length-append acc chunk)) in
      Takes-more seq (partial msg acc) chunk (acc ++ payload) chunks (partial msg (acc ++ chunk)) l
        b1 (omega arith) (is_empty-Chunks cs)
        (handle_next max_payload seq msg chunk s.flags acc (omega arith)) (rw joined at later)

  -- A message, to a decoder that has none in assembly.
  pub Takes-message :
      (seq : ℕ) (a : Assembly) (payload : List ℕ) (chunks : List (List ℕ))
      → seq < 2 ^ 16
      → a.assembling ≡ false
      → Chunks payload chunks
      → IsBytes payload
      → length payload ≤ max_payload
      → Takes max_payload seq msg a chunks payload
  Takes-message seq a _ _ l i (last payload small) b fits =
      Takes-last seq a payload payload a l b small i
        (handle_single max_payload seq msg payload s.flags a i)
  Takes-message seq a _ _ l i (more {payload = payload} chunk rest {chunks = chunks} e full p cs) b
        fits =
      let size = length-append chunk rest in
      let all : length payload ≡ length (chunk ++ rest) = ap length e in
      let (b1, b2) = All-split IsByte chunk rest (rw e at b) in
      Takes-more seq a chunk payload chunks (partial msg chunk) l b1 (omega arith)
        (is_empty-Chunks cs) (handle_first max_payload seq msg chunk s.flags a i (omega arith))
        (rw e (Takes-rest (u16 (seq + 1)) chunk rest chunks (omega arith) cs b2 (omega arith)))
