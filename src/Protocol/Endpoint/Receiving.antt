-- ===== src/Protocol/Endpoint/Receiving.antt =====
-- shared/protocol/protocol_endpoint.cpp: the bytes that the transport received. The decoder's callbacks are
-- handled after the turn of its loop that makes them: they touch of the decoder the expected
-- sequence number at most, which a turn sets before.
use mathlib.Core.Option
use espview.Base.{
  ℕ, zero, suc, ◌++◌, true, false, List, [], ◌∷◌, Option, none, some, if◌then◌else◌, length,
}
use espview.Protocol.Decoder.{pending, turn, turns, consume}
use espview.Protocol.Decoder.Reassembly.{DecoderError, Event, received, packet, failed, is_chunked}
use espview.Protocol.FrameAssembler
use espview.Protocol.Endpoint.{PerPacketCounters, Endpoint, Setup, on_session, on_frames}
use espview.Protocol.Endpoint.Generations.{reset_decoder}
use espview.Protocol.Endpoint.Handlers.{handle_message}

-- The `switch` over a decoder's error.
unfoldable pub classify : DecoderError → PerPacketCounters → PerPacketCounters
classify DecoderError.crc_mismatch c = record c { crc_errors = suc c.crc_errors }
classify DecoderError.sequence_gap c = record c { seq_gaps = suc c.seq_gaps }
classify DecoderError.bad_magic c = record c { bad_magic = suc c.bad_magic }
classify DecoderError.bad_version c = record c { bad_version = suc c.bad_version }
classify DecoderError.chunk_type_mismatch c = record c { chunk_errors = suc c.chunk_errors }
classify DecoderError.chunk_violation c = record c { chunk_errors = suc c.chunk_errors }
classify DecoderError.message_too_large c = record c { chunk_errors = suc c.chunk_errors }
classify DecoderError.bad_type c = record c { bad_header = suc c.bad_header }
classify DecoderError.bad_length c = record c { bad_header = suc c.bad_header }
classify DecoderError.need_more_data c = c

module _ {ℓ} {S : Type ℓ} (p : Setup S) (now : ℕ) where
  unfoldable pub on_decoder_event : Event → Endpoint S → Endpoint S
  unfolding classify
  on_decoder_event (received msg) e = handle_message p now msg e
  on_decoder_event (packet h body) e =
      record (on_session
        (λ s. record s {
          last_single_packet_seq = if is_chunked h then s.last_single_packet_seq else h.seq;
        })
        e) {
          per_packet = record e.per_packet { packets_rx = suc e.per_packet.packets_rx };
          last_peer_rx_ms = now;
        }
  on_decoder_event (failed err) e = on_frames FrameAssembler.on_stream_error (record e {
    per_packet =
        classify err (record e.per_packet { decoder_errors = suc e.per_packet.decoder_errors });
  })

  unfoldable pub on_decoder_events : List Event → Endpoint S → Endpoint S
  on_decoder_events [] e = e
  on_decoder_events (ev ∷ evs) e = on_decoder_events evs (on_decoder_event ev e)

  -- A turn of the decoder's loop, and its callbacks.
  unfoldable pub take_turn : Endpoint S → Endpoint S
  unfolding on_decoder_events
  take_turn e =
      let t = turn (pending e.decoder) e.decoder.core in
      on_decoder_events t.events
        (record e { decoder = consume t.consumed (record e.decoder { core = t.core }) })

  -- `process` of the decoder; the fuel bounds the turns.
  unfoldable pub process : ℕ → Endpoint S → Option (Endpoint S)
  process zero e = none
  process (suc fuel) e =
      let rest = process fuel (take_turn e) in
      if (turn (pending e.decoder) e.decoder.core).again then rest else some (take_turn e)

  unfoldable pub feed : List ℕ → Endpoint S → Option (Endpoint S)
  unfolding process
  feed [] e = some e
  feed (b ∷ bytes) e =
      let decoder = record e.decoder { buf = e.decoder.buf ++ (b ∷ bytes) } in
      process (turns (length (pending decoder))) (record e { decoder = decoder })

  -- What precedes the feeding.
  unfoldable pub before_feed : List ℕ → Endpoint S → Endpoint S
  before_feed bytes e =
      let last : ℕ = elim bytes [ [] ↦ e.last_decoder_rx_ms | _ ∷ _ ↦ now ] in
      let e' = record e { last_decoder_rx_ms = last } in
      record (if e.decoder_reset_pending
        then record (reset_decoder e') { last_decoder_rx_ms = now }
        else e') { in_decoder_callback = true }

  unfoldable pub on_transport_data : List ℕ → Endpoint S → Option (Endpoint S)
  unfolding before_feed feed
  on_transport_data bytes e =
      Option.map (λ (e : Endpoint S). record e { in_decoder_callback = false })
        (feed bytes (before_feed bytes e))
