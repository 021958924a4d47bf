-- ===== src/Protocol/Endpoint/Sequence.antt =====
-- shared/protocol/encoder.cpp, as the endpoint uses it: the sequence numbers of the packets that the
-- transport accepts, and the encoder's own number.
use mathlib.Core.Path.{subst}
use mathlib.Core.Bool.{false≢true}
use espview.Base.{
  ℕ, zero, suc, ◌+◌, ◌^◌, ◌<◌, ◌≤◌, ◌≡◌, refl, sym, ap, ◌∙◌, arith, Bool, true, false, List, [],
  ◌∷◌, ◌++◌, append_assoc, Option, some, if◌then◌else◌, min, ◌==◌, length-take, length-drop,
  if_then, length, take, drop, ltb,
}
use espview.Base.Word.{u16}
use espview.Protocol.Wire.{max_packet_payload}
use espview.Protocol.ByteOrder.{read_u16_le, write_u16_le}
use espview.Protocol.ByteOrder.RoundTrip.{read_u16_le-write_u16_le}
use espview.Protocol.Packet.{PacketHeader, PacketError, make_header, header_bytes}
use espview.Protocol.Packet.RoundTrip.{encode_packet-ok}
use espview.Protocol.Message.{Message}
use espview.Protocol.Encoder.{
  Encoder, Sent, emit, deliver, send_chunks, go_on, encode_stream, check_message, chunk_flags,
}
use espview.Protocol.Encoder.Chunks.{packet_bytes}
use espview.Protocol.Encoder.Emitting.{IsReady, emitted_buf, take-emitted_buf, emitted-IsReady}
use espview.Protocol.Endpoint.{SendStatus}
use espview.Protocol.Endpoint.Sending.{Sending, packet_sink, answer, note_seq, is_ok}

-- The sequence number in a packet.
pub seq_of : List ℕ → ℕ
seq_of bytes = read_u16_le (drop 8 bytes)

-- So many numbers of 16 bits in a row.
unfoldable pub count_from : ℕ → ℕ → List ℕ
count_from q zero = []
count_from q (suc n) = count_from q n ++ (u16 (q + n) ∷ [])

pub is_taken : SendStatus → Bool
is_taken SendStatus.ok = true
is_taken _ = false

-- A transport that notes the sequence number of every packet that it accepts.
pub noting {ℓ} :
    {S : Type ℓ} → (S → List ℕ → SendStatus × S) → S × List ℕ → List ℕ → SendStatus × (S × List ℕ)
noting sink (s, seqs) bytes =
    let (status, s') = sink s bytes in
    (status, (s', if is_taken status then seqs ++ (seq_of bytes ∷ []) else seqs))

seq_of-packet_bytes :
    (h : PacketHeader) (chunk : List ℕ) → h.seq < 2 ^ 16 → seq_of (packet_bytes h chunk) ≡ h.seq
unfolding seq_of packet_bytes header_bytes write_u16_le
seq_of-packet_bytes h chunk b = read_u16_le-write_u16_le h.seq _ b

-- One packet goes to the sink.
emit_lem {ℓ} :
    {S : Type ℓ} (sink : S → List ℕ → Bool × S) (msg : Message) (flags : ℕ) (chunk : List ℕ)
    (enc : Encoder) (s : S)
    → length chunk ≤ max_packet_payload
    → IsReady enc
    → let h = make_header msg.type flags enc.seq (length chunk) in
      let answer = sink s (packet_bytes h chunk) in
      emit sink msg flags chunk enc s ≡ record {
        error = if answer.0 then PacketError.ok else PacketError.sink_aborted;
        encoder = record {
          seq = u16 (enc.seq + 1);
          packet_buf = emitted_buf h chunk enc.packet_buf;
        };
        sink_state = answer.1;
      }
unfolding emit emitted_buf make_header deliver
emit_lem {S = S} sink msg flags chunk enc s small r =
    let h = make_header msg.type flags enc.seq (length chunk) in
    let counted : Encoder = record enc { seq = u16 (enc.seq + 1) } in
    ap (deliver sink counted (length chunk) s)
      (encode_packet-ok h chunk enc.packet_buf refl small (omega (arith, r.room)))
    ∙ ap
        (λ (bytes : List ℕ).
          let sent : Sent S = record {
            error = if (sink s bytes).0 then PacketError.ok else PacketError.sink_aborted;
            encoder = record {
              seq = u16 (enc.seq + 1);
              packet_buf = emitted_buf h chunk enc.packet_buf;
            };
            sink_state = (sink s bytes).1;
          } in
          sent)
        (take-emitted_buf h chunk enc.packet_buf)

sent_ok :
    (b : Bool)
    → (if b then PacketError.ok else PacketError.sink_aborted) ≡ PacketError.ok
    → b ≡ true
sent_ok true h = refl
sent_ok false h = absurd (false≢true (ap is_ok h))

module _ {ℓ} {S : Type ℓ} (q : ℕ) (seqs : List ℕ) where
  -- What was noted: the numbers from `q` on, one for every packet that was accepted.
  unfoldable pub Tracks : Sending (S × List ℕ) → Type 0
  Tracks s = s.link.1 ≡ seqs ++ count_from q s.sent_count

  pub record After (r : Sent (Sending (S × List ℕ))) : Type 0 where
    pub noted : Tracks r.sink_state
    pub ready : IsReady r.encoder
    pub next : r.error ≡ PacketError.ok → r.encoder.seq ≡ u16 (q + r.sink_state.sent_count)
    pub goes_on : r.error ≡ PacketError.ok → r.sink_state.aborted ≡ false

  taken :
      (status : SendStatus) (s : Sending (S × List ℕ)) (link : S) (first : Option ℕ)
      (bytes : List ℕ)
      → s.aborted ≡ false
      → Tracks s
      → seq_of bytes ≡ u16 (q + s.sent_count)
      → let sent = answer status (record s {
        link = (link, if is_taken status then s.link.1 ++ (seq_of bytes ∷ []) else s.link.1);
        first_seq = first;
      }) in
        (Tracks sent.1)
        × (sent.0 ≡ true → sent.1.sent_count ≡ suc s.sent_count)
        × (sent.0 ≡ true → sent.1.aborted ≡ false)
  unfolding answer Tracks count_from is_taken
  taken SendStatus.ok s link first bytes a k n = (
    ap (λ (l : List ℕ). l ++ (seq_of bytes ∷ [])) k
        ∙ append_assoc seqs (count_from q s.sent_count) (seq_of bytes ∷ [])
        ∙ ap (λ (m : ℕ). seqs ++ (count_from q s.sent_count ++ (m ∷ []))) n,
    (λ h. refl),
    (λ h. a),
  )
  taken SendStatus.backpressure s link first bytes a k n =
      (k, (λ h. absurd (false≢true h)), (λ h. absurd (false≢true h)))
  taken SendStatus.error s link first bytes a k n =
      (k, (λ h. absurd (false≢true h)), (λ h. absurd (false≢true h)))
  taken SendStatus.not_connected s link first bytes a k n =
      (k, (λ h. absurd (false≢true h)), (λ h. absurd (false≢true h)))

  emit-After :
      (ack : Bool) (sink : S → List ℕ → SendStatus × S) (msg : Message) (flags : ℕ) (chunk : List ℕ)
      (enc : Encoder) (s : Sending (S × List ℕ))
      → length chunk ≤ max_packet_payload
      → IsReady enc
      → s.aborted ≡ false
      → Tracks s
      → enc.seq ≡ u16 (q + s.sent_count)
      → After (emit (packet_sink ack (noting sink)) msg flags chunk enc s)
  unfolding packet_sink noting make_header
  emit-After ack sink msg flags chunk enc s small r a k n =
      let h = make_header msg.type flags enc.seq (length chunk) in
      let bytes = packet_bytes h chunk in
      let reply = sink s.link.0 bytes in
      let (tracks, one_more, alive) =
        taken reply.0 s reply.1 (note_seq ack bytes s.first_seq) bytes a k
          (seq_of-packet_bytes h chunk r.seq ∙ n) in
      let ok = (packet_sink ack (noting sink) s bytes).0 in
      subst After (sym (emit_lem (packet_sink ack (noting sink)) msg flags chunk enc s small r))
        (record {
          noted = tracks;
          ready = emitted-IsReady h chunk enc small r;
          next = λ e. omega (arith, n, one_more (sent_ok ok e));
          goes_on = λ e. alive (sent_ok ok e);
        })

  -- What the encoder returned.
  pub record Done (o : Option (Sent (Sending (S × List ℕ)))) : Type ℓ where
    pub result : Sent (Sending (S × List ℕ))
    pub returns : o ≡ some result
    pub after : After result

  go_on-Done :
      (next : Encoder → Sending (S × List ℕ) → Option (Sent (Sending (S × List ℕ))))
      (e : PacketError) (enc : Encoder) (s : Sending (S × List ℕ))
      → After (record { error = e; encoder = enc; sink_state = s })
      → (e ≡ PacketError.ok → Done (next enc s))
      → Done (go_on next (record { error = e; encoder = enc; sink_state = s }))
  unfolding go_on
  go_on-Done next PacketError.ok enc s a k = k refl
  go_on-Done next e enc s a k = record {
    result = record { error = e; encoder = enc; sink_state = s };
    returns = refl;
    after = a;
  }

  module _ (ack : Bool) (sink : S → List ℕ → SendStatus × S) (msg : Message) where
    at_rest :
        (e : PacketError) (enc : Encoder) (s : Sending (S × List ℕ))
        → IsReady enc
        → s.aborted ≡ false
        → Tracks s
        → enc.seq ≡ u16 (q + s.sent_count)
        → After (record { error = e; encoder = enc; sink_state = s })
    at_rest e enc s r a k n = record { noted = k; ready = r; next = λ h. n; goes_on = λ h. a }

    send_chunks-Done :
        (fuel : ℕ) (rest : List ℕ) (enc : Encoder) (s : Sending (S × List ℕ))
        → length rest < fuel
        → IsReady enc
        → s.aborted ≡ false
        → Tracks s
        → enc.seq ≡ u16 (q + s.sent_count)
        → Done (send_chunks (packet_sink ack (noting sink)) fuel msg rest enc s)
    unfolding send_chunks
    send_chunks-Done zero rest enc s f r a k n = absurd (omega arith)
    send_chunks-Done (suc fuel) rest enc s f r a k n =
        let m = min max_packet_payload (length rest) in
        let flags = chunk_flags msg.flags (m == length rest) in
        let sent = emit (packet_sink ack (noting sink)) msg flags (take m rest) enc s in
        let after =
          emit-After ack sink msg flags (take m rest) enc s (omega (arith, length-take m rest)) r a
            k n in
        if_then Done (length rest == 0)
          (λ h. record {
            result = record { error = PacketError.ok; encoder = enc; sink_state = s };
            returns = refl;
            after = at_rest PacketError.ok enc s r a k n;
          })
          (λ h.
            go_on-Done (send_chunks (packet_sink ack (noting sink)) fuel msg (drop m rest))
              sent.error sent.encoder sent.sink_state after
              (λ e.
                send_chunks-Done fuel (drop m rest) sent.encoder sent.sink_state
                  (let pos : 0 < length rest = ground arith in
                    omega (arith, pos, length-drop m rest))
                  after.ready (after.goes_on e) after.noted (after.next e)))

    pub encode_stream-Done :
        (enc : Encoder) (s : Sending (S × List ℕ))
        → IsReady enc
        → s.aborted ≡ false
        → Tracks s
        → enc.seq ≡ u16 (q + s.sent_count)
        → Done (encode_stream (packet_sink ack (noting sink)) msg enc s)
    unfolding encode_stream
    encode_stream-Done enc s r a k n =
        let one =
          emit (packet_sink ack (noting sink)) msg (chunk_flags msg.flags true) msg.payload enc s in
        let many =
          send_chunks (packet_sink ack (noting sink)) (suc (length msg.payload)) msg msg.payload enc
            s in
        elim (check_message msg)
          as (λ c. Done (elim c [
            | PacketError.ok ↦
                if ltb max_packet_payload (length msg.payload) then many else some one
            | e ↦ some (record { error = e; encoder = enc; sink_state = s })
          ])) [
            | PacketError.ok ↦
                if_then Done (ltb max_packet_payload (length msg.payload))
                  (λ h.
                    send_chunks-Done (suc (length msg.payload)) msg.payload enc s (omega arith) r a
                      k n)
                  (λ h. record {
                    result = one;
                    returns = refl;
                    after =
                        emit-After ack sink msg (chunk_flags msg.flags true) msg.payload enc s
                          (ground arith) r a k n;
                  })
            | e ↦ record {
              result = record { error = e; encoder = enc; sink_state = s };
              returns = refl;
              after = at_rest e enc s r a k n;
            }
          ]
