-- ===== src/Protocol/Endpoint/Ticking.antt =====
-- shared/protocol/protocol_endpoint.cpp: `tick`, which sees to the time-outs, the heartbeat, the retries
-- and what waits to be sent.
use espview.Base.{ℕ, suc, ◌+◌, Bool, true, false, ◌&&◌, ◌||◌, none, some, ltb, leb, if◌then◌else◌}
use espview.Base.Word.{u32}
use espview.Protocol.Message.Builders.{make_ping}
use espview.Protocol.Decoder
use espview.Protocol.FrameAssembler
use espview.Protocol.Endpoint.{
  SendResult, SessionError, PendingAck, on_ack_timeout, Session, Endpoint, Setup, since, on_session,
  count, call, on_frames, is_sent, is_connected, is_shaking,
}
use espview.Protocol.Endpoint.Sending.{try_transmit, counted, count_hello}
use espview.Protocol.Endpoint.Generations.{reset_decoder, complete_handshake, fail_session}

abbrev pub decoder_half_packet_timeout_ms : ℕ
decoder_half_packet_timeout_ms = 500

abbrev pub capabilities_drained : Session → Session
capabilities_drained s = record s {
  pending_capabilities = none;
  stats = record s.stats { tx_capabilities = suc s.stats.tx_capabilities };
}

abbrev pub ping_sent : ℕ → Session → Session
ping_sent now s = record s {
  last_ping_ms = now;
  last_ping_sent_at_ms = now;
  last_ping_epoch = s.epoch;
  stats = record s.stats { tx_ping = suc s.stats.tx_ping; last_ping_time_ms = now };
}

abbrev pub no_change : Session → Session
no_change s = s

module _ {ℓ} {S : Type ℓ} (p : Setup S) (now : ℕ) where
  abbrev pub late : ℕ → ℕ → Bool
  late since_ms limit = leb limit (since now since_ms)

  -- The reset that was put off.
  unfoldable pub late_reset : Endpoint S → Endpoint S
  late_reset e =
      if e.decoder_reset_pending then record (reset_decoder e) { last_decoder_rx_ms = now } else e

  -- Half a packet has waited too long.
  abbrev pub half_packet : Endpoint S → Bool
  half_packet e =
      (ltb 0 (Decoder.buffered_bytes e.decoder) || Decoder.assembling_message e.decoder)
      && late e.last_decoder_rx_ms decoder_half_packet_timeout_ms

  unfoldable pub tick_decoder : Endpoint S → Endpoint S
  unfolding late_reset
  tick_decoder e =
      let e' = late_reset e in
      if half_packet e'
      then on_frames FrameAssembler.on_stream_error
          (record e' { decoder = Decoder.on_timeout e'.decoder })
      else e'

  -- After the HELLO that waited went out.
  unfoldable pub hello_drained : SendResult × Endpoint S → Endpoint S
  hello_drained (r, e) =
      if is_sent r
      then complete_handshake now
          (on_session (λ s. record (count_hello s) { pending_hello = none }) e)
      else e

  unfoldable pub drain_pending_hello : Endpoint S → Endpoint S
  unfolding hello_drained
  drain_pending_hello e = elim e.session.pending_hello [
    | none ↦ e
    | some msg ↦
        if is_shaking e.session.state
        then hello_drained (try_transmit p now msg false none (some e.session.epoch) e)
        else e
  ]

  unfoldable pub drain_pending_capabilities : Endpoint S → Endpoint S
  drain_pending_capabilities e = elim e.session.pending_capabilities [
    | none ↦ e
    | some msg ↦
        if is_connected e.session.state
        then (counted capabilities_drained no_change
            (try_transmit p now msg true none (some e.session.epoch) e)).1
        else e
  ]

  unfoldable pub heartbeat : Endpoint S → Endpoint S
  heartbeat e =
      if late e.session.last_ping_ms p.config.ping_interval_ms
      then (counted (ping_sent now) no_change
          (try_transmit p now (make_ping now) true none none e)).1
      else e

  -- A request whose time is up: given up, or sent once more.
  unfoldable pub ack_due : PendingAck → Endpoint S → Endpoint S
  ack_due a e =
      let given_up =
        on_session
          (λ s. record s {
            pending_ack = none;
            stats = record s.stats { ack_failures = suc s.stats.ack_failures };
          })
          e in
      if leb (u32 (1 + p.config.ack_max_retries)) a.attempts
      then call (on_ack_timeout a.seq) given_up
      else (try_transmit p now a.message true (some (a.seq, a.epoch)) (some a.epoch) e).1

  unfoldable pub ack_retry : Endpoint S → Endpoint S
  unfolding ack_due
  ack_retry e = elim e.session.pending_ack [
    | none ↦ e
    | some a ↦ if leb a.deadline_ms now then ack_due a e else e
  ]

  unfoldable pub tick_shaking : Endpoint S → Endpoint S
  unfolding drain_pending_hello
  tick_shaking e =
      if late e.session.connect_ms p.config.handshake_timeout_ms
      then fail_session SessionError.handshake_timeout
          (count (λ s. record s { handshake_timeouts = suc s.handshake_timeouts }) e)
      else drain_pending_hello e

  unfoldable pub tick_connected : Endpoint S → Endpoint S
  unfolding heartbeat ack_retry drain_pending_capabilities
  tick_connected e =
      if late e.last_peer_rx_ms p.config.peer_timeout_ms
        && late e.last_data_plane_tx_ms p.config.peer_timeout_ms
      then fail_session SessionError.peer_timeout
          (count (λ s. record s { ping_timeouts = suc s.ping_timeouts }) e)
      else drain_pending_capabilities (ack_retry (heartbeat e))

  unfoldable pub tick : Endpoint S → Endpoint S
  unfolding tick_decoder tick_shaking tick_connected
  tick e =
      let e' = tick_decoder e in
      if is_shaking e'.session.state
      then tick_shaking e'
      else if is_connected e'.session.state
      then tick_connected e'
      else e'
