-- ===== src/Protocol/Encoder/Total.antt =====
-- shared/protocol/encoder.cpp, `encodeStream`: its result without a bound on the turns.
use espview.Base.{
  ℕ, zero, suc, ◌<◌, some, arith, Bool, true, if◌then◌else◌, List, Option, min, ltb, ◌==◌, if_then,
  length, drop, length-drop, HasValue, value_of,
}
use espview.Protocol.Wire.{max_packet_payload}
use espview.Protocol.Packet.{PacketError}
use espview.Protocol.Message.{Message}
use espview.Protocol.Encoder.{
  Encoder, Sent, check_message, chunk_flags, emit, go_on, send_chunks, encode_stream,
}

module _ {ℓ} {S : Type ℓ} where
  go_on-HasValue :
      (next : Encoder → S → Option (Sent S)) (sent : Sent S)
      → ((enc : Encoder) (s : S) → HasValue (next enc s))
      → HasValue (go_on next sent)
  unfolding go_on
  go_on-HasValue next sent h =
      elim sent.error
        as (λ e.
          HasValue
            (elim e [ PacketError.ok ↦ next sent.encoder sent.sink_state | _ ↦ some sent ])) [
              | PacketError.ok ↦ h sent.encoder sent.sink_state
              | _ ↦ tt
            ]

  module _ (sink : S → List ℕ → Bool × S) where
    -- Each turn takes at least one byte of the payload, or is the last.
    send_chunks-HasValue :
        (fuel : ℕ) (msg : Message) (rest : List ℕ) (enc : Encoder) (s : S)
        → length rest < fuel
        → HasValue (send_chunks sink fuel msg rest enc s)
    unfolding send_chunks
    send_chunks-HasValue zero msg rest enc s l = absurd (omega arith)
    send_chunks-HasValue (suc fuel) msg rest enc s l =
        let n = min max_packet_payload (length rest) in
        if_then HasValue (length rest == 0) (λ h. tt)
          (λ h. go_on-HasValue (send_chunks sink fuel msg (drop n rest)) _ (λ enc' s'.
            send_chunks-HasValue fuel msg (drop n rest) enc' s'
              (ground (arith, length-drop n rest))))

    pub encode_stream-HasValue :
        (msg : Message) (enc : Encoder) (s : S) → HasValue (encode_stream sink msg enc s)
    unfolding encode_stream
    encode_stream-HasValue msg enc s =
        elim (check_message msg)
          as (λ c. HasValue (elim c [
            | PacketError.ok ↦
                if ltb max_packet_payload (length msg.payload)
                then send_chunks sink (suc (length msg.payload)) msg msg.payload enc s
                else some (emit sink msg (chunk_flags msg.flags true) msg.payload enc s)
            | e ↦ some (record { error = e; encoder = enc; sink_state = s })
          ])) [
            | PacketError.ok ↦
                if_then HasValue (ltb max_packet_payload (length msg.payload))
                  (λ h.
                    send_chunks-HasValue (suc (length msg.payload)) msg msg.payload enc s
                      (omega arith))
                  (λ h. tt)
            | _ ↦ tt
          ]

    -- What `encodeStream` returns, with no bound on its turns.
    unfoldable pub streamed : Message → Encoder → S → Sent S
    unfolding value_of
    streamed msg enc s = value_of (encode_stream sink msg enc s) (encode_stream-HasValue msg enc s)
