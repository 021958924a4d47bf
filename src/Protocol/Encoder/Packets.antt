-- ===== src/Protocol/Encoder/Packets.antt =====
-- shared/protocol/encoder.cpp: the encoder against the reference.
use espview.Base.{
  ℕ, zero, suc, ◌+◌, ◌≤◌, ◌<◌, ◌≡◌, refl, sym, ap, ◌∙◌, Bool, true, false, arith, List, [], ◌∷◌,
  ◌++◌, Option, some, min, ◌==◌, length, take, drop, length-take, length-drop, take-append-drop,
  take-all, drop-all, append_assoc,
}
use native.Mathlib.Decide.{dec_le}
use espview.Base.{==_refl, lt→ltb, not_lt→ltb}
use espview.Base.Word.{u16}
use espview.Protocol.Wire.{max_packet_payload}
use espview.Protocol.Packet.{PacketError, packet_header_size}
use espview.Protocol.Message.{Message}
use espview.Protocol.Encoder.{
  Encoder, Sent, check_message, chunk_flags, collect, emit, go_on, send_chunks, encode_stream,
  encode,
}
use espview.Protocol.Encoder.Chunks.{
  Chunks, last, more, is_empty, packet_bytes, chunk_header, packets,
}
use espview.Protocol.Encoder.Emitting.{IsReady, emit-collect, emitted-IsReady, emitted_buf}

-- What a call leaves behind when it sent the packets of these chunks.
abbrev pub Delivers :
    Message → Encoder → List (List ℕ) → List (List ℕ) → Option (Sent (List (List ℕ))) → Type 0
Delivers msg enc out chunks result =
    (buf : List ℕ) × (length buf ≡ packet_header_size + max_packet_payload)
    × (result
        ≡ some (record {
          error = PacketError.ok;
          encoder = record { seq = u16 (enc.seq + length chunks); packet_buf = buf };
          sink_state = out ++ packets msg enc.seq chunks;
        }))

not_empty : (n : ℕ) → 0 < n → (n == 0) ≡ false
not_empty n p = ground arith

go_on-ok {ℓ} :
    {S : Type ℓ} (next : Encoder → S → Option (Sent S)) (sent : Sent S)
    → sent.error ≡ PacketError.ok
    → go_on next sent ≡ next sent.encoder sent.sink_state
unfolding go_on
go_on-ok next sent k = rw k refl

-- A turn of the loop whose packet went out goes on behind its chunk.
send_chunks_turn :
    (fuel : ℕ) (msg : Message) (rest : List ℕ) (enc : Encoder) (out : List (List ℕ)) (n : ℕ)
    (final : Bool) (sent : Sent (List (List ℕ)))
    → 0 < length rest
    → min max_packet_payload (length rest) ≡ n
    → (n == length rest) ≡ final
    → emit collect msg (chunk_flags msg.flags final) (take n rest) enc out ≡ sent
    → sent.error ≡ PacketError.ok
    → send_chunks collect (suc fuel) msg rest enc out
      ≡ send_chunks collect fuel msg (drop n rest) sent.encoder sent.sink_state
unfolding send_chunks
send_chunks_turn fuel msg rest enc out n final sent p m l e k =
    let some_left : (length rest == 0) ≡ false = not_empty (length rest) p in
    rw (some_left, m, l, e) (go_on-ok (send_chunks collect fuel msg (drop n rest)) sent k)

-- With nothing left the loop is over.
send_chunks_end :
    (fuel : ℕ) (msg : Message) (enc : Encoder) (out : List (List ℕ))
    → 0 < fuel
    → send_chunks collect fuel msg [] enc out
      ≡ some (record { error = PacketError.ok; encoder = enc; sink_state = out })
unfolding send_chunks
send_chunks_end zero msg enc out p = absurd (omega arith)
send_chunks_end (suc fuel) msg enc out p = refl

abbrev pub Sends :
    Message → List ℕ → Encoder → List (List ℕ) → Option (Sent (List (List ℕ))) → Type 0
Sends msg rest enc out result =
    (chunks : List (List ℕ)) × Chunks rest chunks × Delivers msg enc out chunks result

-- The last turn: what is left fits a packet.
last_turn :
    (fuel : ℕ) (msg : Message) (rest : List ℕ) (enc : Encoder) (out : List (List ℕ))
    → 0 < fuel
    → 0 < length rest
    → length rest ≤ max_packet_payload
    → IsReady enc
    → Sends msg rest enc out (send_chunks collect (suc fuel) msg rest enc out)
unfolding packets chunk_flags
last_turn fuel msg rest enc out f p small r =
    let h = chunk_header msg enc.seq true rest in
    let sent = emit-collect msg (chunk_flags msg.flags true) rest enc out small r in
    let enc' : Encoder = record {
      seq = u16 (enc.seq + 1);
      packet_buf = emitted_buf h rest enc.packet_buf;
    } in
    let out' : List (List ℕ) = out ++ (packet_bytes h rest ∷ []) in
    (
      rest ∷ [],
      last rest small,
      (
        emitted_buf h rest enc.packet_buf,
        (emitted-IsReady h rest enc small r).room,
        send_chunks_turn fuel msg rest enc out (length rest) true _ p (omega arith)
              (==_refl (length rest))
              (ap (λ (c : List ℕ). emit collect msg (chunk_flags msg.flags true) c enc out)
                  (take-all (length rest) rest (omega arith))
                ∙ sent)
              refl
            ∙ ap (λ (c : List ℕ). send_chunks collect fuel msg c enc' out')
                (drop-all (length rest) rest (omega arith))
            ∙ send_chunks_end fuel msg enc' out' f,
      ),
    )

pub is_empty-Chunks :
    {payload : List ℕ} {chunks : List (List ℕ)} → Chunks payload chunks → is_empty chunks ≡ false
is_empty-Chunks (last payload small) = refl
is_empty-Chunks (more chunk rest e full some_left cs) = refl

lt→ne_test : (m n : ℕ) → m < n → (m == n) ≡ false
lt→ne_test m n h = ground arith

pub count_on : (seq n : ℕ) → u16 (u16 (seq + 1) + n) ≡ u16 (seq + suc n)
count_on seq n = omega arith

-- A full turn: the sends of the rest, behind a full packet.
full_turn :
    (fuel : ℕ) (msg : Message) (rest : List ℕ) (enc : Encoder) (out : List (List ℕ))
    → max_packet_payload < length rest
    → IsReady enc
    → (let chunk = take max_packet_payload rest in
        let h = chunk_header msg enc.seq false chunk in
        let enc' : Encoder = record {
          seq = u16 (enc.seq + 1);
          packet_buf = emitted_buf h chunk enc.packet_buf;
        } in
        let out' = out ++ (packet_bytes h chunk ∷ []) in
        Sends msg
          (drop max_packet_payload rest)
          enc'
          out'
          (send_chunks collect fuel msg (drop max_packet_payload rest) enc' out'))
    → Sends msg rest enc out (send_chunks collect (suc fuel) msg rest enc out)
unfolding packets chunk_flags
full_turn fuel msg rest enc out large r (chunks, cs, (buf, room, eq)) =
    let chunk : List ℕ = take max_packet_payload rest in
    let full : length chunk ≡ max_packet_payload =
      omega (arith, length-take max_packet_payload rest) in
    let h = chunk_header msg enc.seq false chunk in
    (
      chunk ∷ chunks,
      more chunk (drop max_packet_payload rest) (sym (take-append-drop max_packet_payload rest))
          full (omega (arith, length-drop max_packet_payload rest)) cs,
      (
        buf,
        room,
        send_chunks_turn fuel msg rest enc out max_packet_payload false _ (omega arith)
              (omega arith) (lt→ne_test max_packet_payload (length rest) (omega arith))
              (emit-collect msg (chunk_flags msg.flags false) chunk enc out (omega arith) r) refl
            ∙ eq
            ∙ rw
                (
                  is_empty-Chunks cs,
                  append_assoc out (packet_bytes h chunk ∷ [])
                      (packets msg (u16 (enc.seq + 1)) chunks),
                  count_on enc.seq (length chunks),
                )
                refl,
      ),
    )

-- The loop sends the chunks of what is left of the payload; the length of that is fuel enough.
pub send_chunks-collect :
    (fuel : ℕ) (msg : Message) (rest : List ℕ) (enc : Encoder) (out : List (List ℕ))
    → length rest < fuel
    → 0 < length rest
    → IsReady enc
    → Sends msg rest enc out (send_chunks collect fuel msg rest enc out)
send_chunks-collect zero msg rest enc out f p r = absurd (omega arith)
send_chunks-collect (suc fuel) msg rest enc out f p r =
    elim (dec_le (length rest) max_packet_payload) [
      | yes small ↦ last_turn fuel msg rest enc out (omega arith) p small r
      | no large ↦
          let chunk : List ℕ = take max_packet_payload rest in
          let h = chunk_header msg enc.seq false chunk in
          full_turn fuel msg rest enc out (omega arith) r (
            send_chunks-collect fuel msg (drop max_packet_payload rest)
              (record { seq = u16 (enc.seq + 1); packet_buf = emitted_buf h chunk enc.packet_buf })
              (out ++ (packet_bytes h chunk ∷ []))
              (omega (arith, length-drop max_packet_payload rest))
              (omega (arith, length-drop max_packet_payload rest))
              (emitted-IsReady h chunk enc (omega (arith, length-take max_packet_payload rest)) r))
    ]

encode_small :
    (msg : Message) (enc : Encoder)
    → check_message msg ≡ PacketError.ok
    → length msg.payload ≤ max_packet_payload
    → encode msg enc ≡ some (emit collect msg (chunk_flags msg.flags true) msg.payload enc [])
unfolding encode encode_stream
encode_small msg enc valid small =
    rw (valid, encode, encode_stream, not_lt→ltb max_packet_payload (length msg.payload) small) refl

encode_large :
    (msg : Message) (enc : Encoder)
    → check_message msg ≡ PacketError.ok
    → max_packet_payload < length msg.payload
    → encode msg enc ≡ send_chunks collect (suc (length msg.payload)) msg msg.payload enc []
unfolding encode encode_stream
encode_large msg enc valid large =
    rw (valid, encode, encode_stream, lt→ltb max_packet_payload (length msg.payload) large) refl

-- `encode` of a message that passes the checks always returns, with the packets of its chunks.
pub encode-packets :
    (msg : Message) (enc : Encoder)
    → check_message msg ≡ PacketError.ok
    → IsReady enc
    → Sends msg msg.payload enc [] (encode msg enc)
unfolding packets chunk_flags
encode-packets msg enc valid r = elim (dec_le (length msg.payload) max_packet_payload) [
  | yes small ↦
      let h = chunk_header msg enc.seq true msg.payload in
      (
        msg.payload ∷ [],
        last msg.payload small,
        (
          emitted_buf h msg.payload enc.packet_buf,
          (emitted-IsReady h msg.payload enc small r).room,
          encode_small msg enc valid small
              ∙ ap some (emit-collect msg (chunk_flags msg.flags true) msg.payload enc [] small r),
        ),
      )
  | no large ↦ rw (encode_large msg enc valid (omega arith)) (
      send_chunks-collect (suc (length msg.payload)) msg msg.payload enc [] (omega arith)
        (omega arith) r)
]
