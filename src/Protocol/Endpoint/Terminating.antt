-- ===== src/Protocol/Endpoint/Terminating.antt =====
-- shared/protocol/protocol_endpoint.cpp: what a run of calls returns.
use mathlib.Core.Option
use mathlib.Core.Path.{subst}
use espview.Base.{
  ℕ, suc, ◌+◌, ◌≡◌, refl, sym, ap, ◌∙◌, arith, Bool, true, false, not, ◌&&◌, List, [], ◌∷◌, Option,
  none, some, if_then, some_then, leb, HasValue,
}
use espview.Base.Word.{u32}
use espview.Protocol.Wire.{ErrorCode}
use espview.Protocol.Message.{Message}
use espview.Protocol.Message.Builders.{make_ping, make_ack, make_error}
use espview.Protocol.Encoder.{Encoder, encode_stream}
use espview.Protocol.Encoder.Total.{encode_stream-HasValue}
use espview.Protocol.Decoder
use espview.Protocol.Decoder.{StreamDecoder, pending}
use espview.Protocol.Decoder.Run.{IsValid}
use espview.Protocol.Endpoint.{
  SendStatus, SendResult, SessionError, SessionStats, PendingAck, Session, Endpoint, Setup,
  on_session, count, is_sent, is_shaking, is_connected, is_disconnected, init,
}
use espview.Protocol.Endpoint.Sending.{
  Sending, packet_sink, try_transmit, transmit, send_hello, built_hello, send_built, counted,
  keep_hello, count_hello, count_ack, count_capabilities, count_preview, count_scan, count_status,
  keep_capabilities, drop_message, send_error,
}
use espview.Protocol.Endpoint.Generations.{
  fail_session, complete_handshake, set_state, on_transport_connected, on_transport_disconnected,
  is_connecting,
}
use espview.Protocol.Endpoint.Ticking.{
  capabilities_drained, ping_sent, no_change, late, late_reset, half_packet, tick_decoder,
  hello_drained, drain_pending_hello, drain_pending_capabilities, heartbeat, ack_due, ack_retry,
  tick_shaking, tick_connected, tick,
}
use espview.Protocol.Endpoint.Steps.{
  Input, step, steps, transport_connected, transport_disconnected, ticked, hello_sent,
  data_received, message_sent, acknowledged, error_sent, capabilities_sent, physical_preview_sent,
  wifi_scan_result_sent, wifi_status_sent,
}
use espview.Protocol.Endpoint.Invariant.Sending.{try_transmit-decoder, transmit-decoder}
use espview.Protocol.Endpoint.Totality.{same_ready, Returns, on_transport_data-Returns}

-- The decoder is in order.
Ordered {ℓ} : {S : Type ℓ} → Endpoint S → Type 0
Ordered e = IsValid e.decoder

timeout-IsValid : (d : StreamDecoder) → IsValid (Decoder.on_timeout d)
unfolding Decoder.on_timeout
timeout-IsValid d = record { start = omega arith; ready = tt }

reset-IsValid : (d : StreamDecoder) → IsValid (Decoder.reset d)
unfolding Decoder.reset
reset-IsValid d = record { start = omega arith; ready = tt }

module _ {ℓ} {S : Type ℓ} where
  fail_session-Ordered :
      (err : SessionError) (f : SessionStats → SessionStats) (e : Endpoint S)
      → Ordered e
      → Ordered (fail_session err (count f e))
  unfolding fail_session Ordered Decoder.reset
  fail_session-Ordered err f e v =
      let P : Endpoint S → Type 0 = λ e. IsValid e.decoder in
      let cleared =
        if_then P e.in_decoder_callback (λ b. v)
          (λ b. record { start = omega arith; ready = tt }) in
      if_then P e.session.failed (λ h. v)
        (λ h. if_then P (not (is_disconnected e.session.state)) (λ t. cleared) (λ t. cleared))

  complete_handshake-Ordered :
      (now : ℕ) (e : Endpoint S) → Ordered e → Ordered (complete_handshake now e)
  unfolding complete_handshake set_state Ordered Decoder.reset_seq_baseline
  complete_handshake-Ordered now e v =
      if_then (λ (e : Endpoint S). IsValid e.decoder) (is_shaking e.session.state)
        (λ h. record {
          start = v.start;
          ready =
              same_ready e.decoder.core.state (pending e.decoder) e.decoder.core
                (record e.decoder.core { expected_seq = 0 }) refl v.ready;
        })
        (λ h. v)

module _ {ℓ} {S : Type ℓ} (p : Setup S) (now : ℕ) where
  try_transmit-Ordered :
      (msg : Message) (connected : Bool) (retry : Option (ℕ × ℕ)) (check : Option ℕ)
      (e : Endpoint S)
      → Ordered e
      → Ordered (try_transmit p now msg connected retry check e).1
  unfolding Ordered
  try_transmit-Ordered msg connected retry check e v =
      subst IsValid (sym (try_transmit-decoder p now msg connected retry check e).0) v

  transmit-Ordered :
      (msg : Message) (connected : Bool) (e : Endpoint S)
      → Ordered e
      → Ordered (transmit p now msg connected e).1
  unfolding Ordered
  transmit-Ordered msg connected e v =
      subst IsValid (sym (transmit-decoder p now msg connected e)) v

  counted-Ordered :
      (msg : Message) (connected : Bool) (check : Option ℕ) (good bad : Session → Session)
      (e : Endpoint S)
      → Ordered e
      → Ordered (counted good bad (try_transmit p now msg connected none check e)).1
  unfolding Ordered
  counted-Ordered msg connected check good bad e v =
      let sent = try_transmit-Ordered msg connected none check e v in
      if_then (λ (e : Endpoint S). IsValid e.decoder)
        (is_sent (try_transmit p now msg connected none check e).0) (λ h. sent) (λ h. sent)

  late_reset-Ordered : (e : Endpoint S) → Ordered e → Ordered (late_reset p now e)
  unfolding late_reset Ordered
  late_reset-Ordered e v =
      if_then (λ (e : Endpoint S). IsValid e.decoder) e.decoder_reset_pending
        (λ h. reset-IsValid e.decoder) (λ h. v)

  tick_decoder-Ordered : (e : Endpoint S) → Ordered e → Ordered (tick_decoder p now e)
  unfolding tick_decoder Ordered
  tick_decoder-Ordered e v =
      let e' = late_reset p now e in
      if_then (λ (e : Endpoint S). IsValid e.decoder) (half_packet p now e')
        (λ h. timeout-IsValid e'.decoder) (λ h. late_reset-Ordered e v)

  hello_drained-Ordered :
      (t : SendResult × Endpoint S) → Ordered t.1 → Ordered (hello_drained p now t)
  unfolding hello_drained Ordered
  hello_drained-Ordered (sent, e) v =
      let e' = on_session (λ s. record (count_hello s) { pending_hello = none }) e in
      if_then Ordered (is_sent sent) (λ h. complete_handshake-Ordered now e' v) (λ h. v)

  drain_pending_hello-Ordered : (e : Endpoint S) → Ordered e → Ordered (drain_pending_hello p now e)
  unfolding drain_pending_hello
  drain_pending_hello-Ordered e v =
      some_then Ordered e.session.pending_hello (λ h. v)
        (λ msg h.
          if_then Ordered (is_shaking e.session.state)
            (λ h.
              hello_drained-Ordered _
                (try_transmit-Ordered msg false none (some e.session.epoch) e v))
            (λ h. v))

  drain_pending_capabilities-Ordered :
      (e : Endpoint S) → Ordered e → Ordered (drain_pending_capabilities p now e)
  unfolding drain_pending_capabilities
  drain_pending_capabilities-Ordered e v =
      some_then Ordered e.session.pending_capabilities (λ h. v)
        (λ msg h.
          if_then Ordered (is_connected e.session.state)
            (λ h.
              counted-Ordered msg true (some e.session.epoch) capabilities_drained no_change e v)
            (λ h. v))

  heartbeat-Ordered : (e : Endpoint S) → Ordered e → Ordered (heartbeat p now e)
  unfolding heartbeat
  heartbeat-Ordered e v =
      if_then Ordered (late p now e.session.last_ping_ms p.config.ping_interval_ms)
        (λ h. counted-Ordered (make_ping now) true none (ping_sent now) no_change e v) (λ h. v)

  ack_due-Ordered : (a : PendingAck) (e : Endpoint S) → Ordered e → Ordered (ack_due p now a e)
  unfolding ack_due Ordered
  ack_due-Ordered a e v =
      if_then (λ (e : Endpoint S). IsValid e.decoder)
        (leb (u32 (1 + p.config.ack_max_retries)) a.attempts) (λ g. v)
        (λ g. try_transmit-Ordered a.message true (some (a.seq, a.epoch)) (some a.epoch) e v)

  ack_retry-Ordered : (e : Endpoint S) → Ordered e → Ordered (ack_retry p now e)
  unfolding ack_retry
  ack_retry-Ordered e v =
      some_then Ordered e.session.pending_ack (λ h. v)
        (λ a h. if_then Ordered (leb a.deadline_ms now) (λ g. ack_due-Ordered a e v) (λ g. v))

  tick_shaking-Ordered : (e : Endpoint S) → Ordered e → Ordered (tick_shaking p now e)
  unfolding tick_shaking
  tick_shaking-Ordered e v =
      if_then Ordered (late p now e.session.connect_ms p.config.handshake_timeout_ms)
        (λ h.
          fail_session-Ordered SessionError.handshake_timeout
            (λ s. record s { handshake_timeouts = suc s.handshake_timeouts }) e v)
        (λ h. drain_pending_hello-Ordered e v)

  tick_connected-Ordered : (e : Endpoint S) → Ordered e → Ordered (tick_connected p now e)
  unfolding tick_connected
  tick_connected-Ordered e v =
      if_then Ordered
        (late p now e.last_peer_rx_ms p.config.peer_timeout_ms
          && late p now e.last_data_plane_tx_ms p.config.peer_timeout_ms)
        (λ h.
          fail_session-Ordered SessionError.peer_timeout
            (λ s. record s { ping_timeouts = suc s.ping_timeouts }) e v)
        (λ h. drain_pending_capabilities-Ordered _ (ack_retry-Ordered _ (heartbeat-Ordered e v)))

  tick-Ordered : (e : Endpoint S) → Ordered e → Ordered (tick p now e)
  unfolding tick
  tick-Ordered e v =
      let e' = tick_decoder p now e in
      let v' = tick_decoder-Ordered e v in
      if_then Ordered (is_shaking e'.session.state) (λ h. tick_shaking-Ordered e' v')
        (λ h.
          if_then Ordered (is_connected e'.session.state) (λ h. tick_connected-Ordered e' v')
            (λ h. v'))

  send_hello-Ordered : (e : Endpoint S) → Ordered e → Ordered (send_hello p now e).1
  unfolding send_hello
  send_hello-Ordered e v =
      some_then (λ (t : SendResult × Endpoint S). Ordered t.1) (built_hello p now) (λ h. v)
        (λ hello h. counted-Ordered hello false none count_hello (keep_hello hello) e v)

  send_built-Ordered :
      (msg : Option Message) (good : Session → Session) (bad : Message → Session → Session)
      (e : Endpoint S)
      → Ordered e
      → Ordered (send_built p now msg good bad e).1
  send_built-Ordered none good bad e v = v
  send_built-Ordered (some msg) good bad e v = counted-Ordered msg true none good (bad msg) e v

  send_error-Ordered :
      (code : ErrorCode) (text : List ℕ) (e : Endpoint S)
      → Ordered e
      → Ordered (send_error p now code text e).1
  send_error-Ordered code text e v =
      some_then (λ (t : SendResult × Endpoint S). Ordered t.1) (make_error code text) (λ h. v)
        (λ msg h. transmit-Ordered msg false e v)

  on_transport_connected-Ordered : (e : Endpoint S) → Ordered (on_transport_connected p now e).1
  unfolding on_transport_connected Ordered Decoder.reset
  on_transport_connected-Ordered e = send_hello-Ordered _ (
      if_then (λ (e : Endpoint S). IsValid e.decoder) (not (is_connecting e.session.state))
        (λ h. record { start = omega arith; ready = tt })
        (λ h. record { start = omega arith; ready = tt }))

  on_transport_disconnected-Ordered : (e : Endpoint S) → Ordered (on_transport_disconnected now e)
  unfolding on_transport_disconnected Ordered Decoder.reset
  on_transport_disconnected-Ordered e =
      if_then (λ (e : Endpoint S). IsValid e.decoder) (not (is_disconnected e.session.state))
        (λ h. record { start = omega arith; ready = tt })
        (λ h. record { start = omega arith; ready = tt })

  plain_result : (e : Endpoint S) → Ordered e → Returns p now (some e)
  unfolding Ordered
  plain_result e v = record { endpoint = e; returns = refl; valid = v }

  step-Returns : (input : Input) (e : Endpoint S) → Ordered e → Returns p now (step p now input e)
  unfolding step
  step-Returns transport_connected e v = plain_result _ (on_transport_connected-Ordered e)
  step-Returns transport_disconnected e v = plain_result _ (on_transport_disconnected-Ordered e)
  step-Returns ticked e v = plain_result _ (tick-Ordered e v)
  step-Returns hello_sent e v = plain_result _ (send_hello-Ordered e v)
  step-Returns (data_received bytes) e v =
      unfold Ordered in on_transport_data-Returns p now bytes e v
  step-Returns (message_sent msg) e v = plain_result _ (transmit-Ordered msg true e v)
  step-Returns (acknowledged seq status code) e v = plain_result _ (
      counted-Ordered (make_ack seq status code) false none count_ack
        (drop_message (make_ack seq status code)) e v)
  step-Returns (error_sent code text) e v = plain_result _ (send_error-Ordered code text e v)
  step-Returns (capabilities_sent caps) e v =
      plain_result _ (send_built-Ordered _ count_capabilities keep_capabilities e v)
  step-Returns (physical_preview_sent info pixels) e v =
      plain_result _ (send_built-Ordered _ count_preview drop_message e v)
  step-Returns (wifi_scan_result_sent result) e v =
      plain_result _ (send_built-Ordered _ count_scan drop_message e v)
  step-Returns (wifi_status_sent status) e v =
      plain_result _ (send_built-Ordered _ count_status drop_message e v)

module _ {ℓ} {S : Type ℓ} (p : Setup S) where
  -- What a run returned.
  pub record Ends (o : Option (Endpoint S)) : Type ℓ where
    pub endpoint : Endpoint S
    pub returns : o ≡ some endpoint

  steps-Ends : (inputs : List (ℕ × Input)) (e : Endpoint S) → Ordered e → Ends (steps p inputs e)
  unfolding steps Ordered Option.bind
  steps-Ends [] e v = record { endpoint = e; returns = refl }
  steps-Ends ((now, input) ∷ inputs) e v =
      let first = step-Returns p now input e v in
      let rest = steps-Ends inputs first.endpoint first.valid in
      record {
        endpoint = rest.endpoint;
        returns =
            ap (λ (o : Option (Endpoint S)). Option.bind o (steps p inputs)) first.returns
            ∙ rest.returns;
      }

  -- Every run of an endpoint's calls returns, whatever bytes the transport brings and whatever it
  -- answers: no call runs out of the decoder's fuel; and no message that is sent, over any sink and from
  -- any state of the encoder, runs out of the fuel of the encoder's loop.
  pub steps_end :
      (max_payload : ℕ) (link : S) (inputs : List (ℕ × Input))
      → Ends (steps p inputs (init max_payload link))
        × ((ack : Bool) (sink : S → List ℕ → SendStatus × S) (msg : Message) (enc : Encoder)
              (s : Sending S)
            → HasValue (encode_stream (packet_sink ack sink) msg enc s))
  unfolding Ordered
  steps_end max_payload link inputs = (
    steps-Ends inputs (init max_payload link) (record { start = omega arith; ready = tt }),
    λ ack sink. encode_stream-HasValue (packet_sink ack sink),
  )
