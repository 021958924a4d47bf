-- ===== src/Protocol/Endpoint/Invariant/Runs.antt =====
-- shared/protocol/protocol_endpoint.cpp: `onTransportData` and `tick` against the invariant of the
-- session.
use mathlib.Core.Option
use espview.Base.{
  ℕ, zero, suc, ◌+◌, ◌++◌, ◌<◌, ◌≡◌, refl, sym, arith, Bool, true, false, ◌&&◌, List, [], ◌∷◌,
  Option, none, some, if_then, some_then, leb,
}
use mathlib.Core.Path.{subst}
use espview.Base.Word.{u32}
use espview.Protocol.Message.{Message}
use espview.Protocol.Message.Builders.{make_ping}
use espview.Protocol.Decoder
use espview.Protocol.Decoder.{pending, turn}
use espview.Protocol.Decoder.Reassembly.{Event, received, packet, failed}
use espview.Protocol.Endpoint.{
  SendResult, SessionError, PendingAck, Session, Endpoint, Setup, on_session, count, is_sent,
  is_shaking, is_connected, SessionStats,
}
use espview.Protocol.Endpoint.Sending.{try_transmit, transmit, count_hello}
use espview.Protocol.Endpoint.Generations.{fail_session}
use espview.Protocol.Endpoint.Receiving.{
  on_decoder_event, on_decoder_events, take_turn, process, feed, before_feed, on_transport_data,
}
use espview.Protocol.Endpoint.Ticking.{
  late, late_reset, half_packet, tick_decoder, hello_drained, drain_pending_hello,
  drain_pending_capabilities, heartbeat, ack_due, ack_retry, tick_shaking, tick_connected, tick,
}
use espview.Protocol.Endpoint.Invariant.{retries_of, IsValid, Holds, Retryable, no_request}
use espview.Protocol.Endpoint.Invariant.Sending.{try_transmit-IsValid, transmit-IsValid}
use espview.Protocol.Endpoint.Invariant.Handlers.{
  fail_session-Holds, complete_handshake-Holds, handle_message-Holds,
}

-- What a call returned keeps the invariant.
abbrev pub Returned {ℓ} : {S : Type ℓ} → ℕ → Option (Endpoint S) → Type 0
Returned retries none = Unit
Returned retries (some e) = Holds retries e

module _ {ℓ} {S : Type ℓ} (p : Setup S) (now : ℕ) where
  pub try_transmit-Holds :
      (msg : Message) (connected : Bool) (check : Option ℕ) (e : Endpoint S)
      → Holds (retries_of p) e
      → Holds (retries_of p) (try_transmit p now msg connected none check e).1
  unfolding Holds
  try_transmit-Holds msg connected check e v =
      try_transmit-IsValid p now msg connected none check e tt v

  pub transmit-Holds :
      (msg : Message) (connected : Bool) (e : Endpoint S)
      → Holds (retries_of p) e
      → Holds (retries_of p) (transmit p now msg connected e).1
  unfolding Holds
  transmit-Holds msg connected e v = transmit-IsValid p now msg connected e v

  on_decoder_event-Holds :
      (ev : Event) (e : Endpoint S)
      → Holds (retries_of p) e
      → Holds (retries_of p) (on_decoder_event p now ev e)
  unfolding on_decoder_event Holds
  on_decoder_event-Holds (received msg) e v = handle_message-Holds p now msg e v
  on_decoder_event-Holds (packet h body) e v = v
  on_decoder_event-Holds (failed err) e v = v

  on_decoder_events-Holds :
      (evs : List Event) (e : Endpoint S)
      → Holds (retries_of p) e
      → Holds (retries_of p) (on_decoder_events p now evs e)
  unfolding on_decoder_events
  on_decoder_events-Holds [] e v = v
  on_decoder_events-Holds (ev ∷ evs) e v =
      on_decoder_events-Holds evs (on_decoder_event p now ev e) (on_decoder_event-Holds ev e v)

  -- The members that the invariant does not speak of.
  same_session :
      (e f : Endpoint S) → f.session ≡ e.session → Holds (retries_of p) e → Holds (retries_of p) f
  unfolding Holds
  same_session e f h v = subst (λ (s : Session). IsValid (retries_of p) s) (sym h) v

  take_turn-Holds :
      (e : Endpoint S) → Holds (retries_of p) e → Holds (retries_of p) (take_turn p now e)
  unfolding take_turn
  take_turn-Holds e v =
      let e' = record e {
        decoder =
            Decoder.consume (turn (pending e.decoder) e.decoder.core).consumed
              (record e.decoder { core = (turn (pending e.decoder) e.decoder.core).core });
      } in
      on_decoder_events-Holds (turn (pending e.decoder) e.decoder.core).events e'
        (same_session e e' refl v)

  process-Returned :
      (fuel : ℕ) (e : Endpoint S)
      → Holds (retries_of p) e
      → Returned (retries_of p) (process p now fuel e)
  unfolding process
  process-Returned zero e v = tt
  process-Returned (suc fuel) e v =
      if_then (Returned (retries_of p)) (turn (pending e.decoder) e.decoder.core).again
        (λ h. process-Returned fuel (take_turn p now e) (take_turn-Holds e v))
        (λ h. take_turn-Holds e v)

  before_feed-Holds :
      (bytes : List ℕ) (e : Endpoint S)
      → Holds (retries_of p) e
      → Holds (retries_of p) (before_feed p now bytes e)
  unfolding before_feed Holds
  before_feed-Holds bytes e v =
      if_then (λ (e : Endpoint S). IsValid (retries_of p) e.session) e.decoder_reset_pending
        (λ h. v) (λ h. v)

  feed-Returned :
      (bytes : List ℕ) (e : Endpoint S)
      → Holds (retries_of p) e
      → Returned (retries_of p) (feed p now bytes e)
  unfolding feed
  feed-Returned [] e v = v
  feed-Returned (b ∷ bytes) e v =
      let decoder = record e.decoder { buf = e.decoder.buf ++ (b ∷ bytes) } in
      process-Returned _ (record e { decoder = decoder })
        (same_session e (record e { decoder = decoder }) refl v)

  fed-Returned :
      (o : Option (Endpoint S))
      → Returned (retries_of p) o
      → Returned
          (retries_of p)
          (Option.map (λ (e : Endpoint S). record e { in_decoder_callback = false }) o)
  unfolding Holds
  fed-Returned none v = tt
  fed-Returned (some e) v = v

  pub on_transport_data-Returned :
      (bytes : List ℕ) (e : Endpoint S)
      → Holds (retries_of p) e
      → Returned (retries_of p) (on_transport_data p now bytes e)
  unfolding on_transport_data
  on_transport_data-Returned bytes e v =
      fed-Returned _ (feed-Returned bytes (before_feed p now bytes e) (before_feed-Holds bytes e v))

  tick_decoder-Holds :
      (e : Endpoint S) → Holds (retries_of p) e → Holds (retries_of p) (tick_decoder p now e)
  unfolding tick_decoder late_reset Holds
  tick_decoder-Holds e v =
      let P : Endpoint S → Type 0 = λ e. IsValid (retries_of p) e.session in
      let e' = late_reset p now e in
      let v' : P e' = if_then P e.decoder_reset_pending (λ h. v) (λ h. v) in
      if_then P (half_packet p now e') (λ h. v') (λ h. v')

  hello_drained-Holds :
      (t : SendResult × Endpoint S)
      → Holds (retries_of p) t.1
      → Holds (retries_of p) (hello_drained p now t)
  unfolding hello_drained Holds
  hello_drained-Holds (sent, e) v =
      let e' = on_session (λ s. record (count_hello s) { pending_hello = none }) e in
      if_then (Holds (retries_of p)) (is_sent sent)
        (λ h. complete_handshake-Holds (retries_of p) now e' v) (λ h. v)

  drain_pending_hello-Holds :
      (e : Endpoint S) → Holds (retries_of p) e → Holds (retries_of p) (drain_pending_hello p now e)
  unfolding drain_pending_hello
  drain_pending_hello-Holds e v =
      some_then (Holds (retries_of p)) e.session.pending_hello (λ h. v)
        (λ msg h.
          if_then (Holds (retries_of p)) (is_shaking e.session.state)
            (λ h. hello_drained-Holds _ (try_transmit-Holds msg false (some e.session.epoch) e v))
            (λ h. v))

  drain_pending_capabilities-Holds :
      (e : Endpoint S)
      → Holds (retries_of p) e
      → Holds (retries_of p) (drain_pending_capabilities p now e)
  unfolding drain_pending_capabilities Holds
  drain_pending_capabilities-Holds e v =
      let P : Endpoint S → Type 0 = λ e. IsValid (retries_of p) e.session in
      some_then P e.session.pending_capabilities (λ h. v)
        (λ msg h.
          if_then P (is_connected e.session.state)
            (λ h.
              let sent = try_transmit-Holds msg true (some e.session.epoch) e v in
              if_then P (is_sent (try_transmit p now msg true none (some e.session.epoch) e).0)
                (λ h. sent) (λ h. sent))
            (λ h. v))

  heartbeat-Holds :
      (e : Endpoint S) → Holds (retries_of p) e → Holds (retries_of p) (heartbeat p now e)
  unfolding heartbeat Holds
  heartbeat-Holds e v =
      let P : Endpoint S → Type 0 = λ e. IsValid (retries_of p) e.session in
      if_then P (late p now e.session.last_ping_ms p.config.ping_interval_ms)
        (λ h.
          let sent = try_transmit-Holds (make_ping now) true none e v in
          if_then P (is_sent (try_transmit p now (make_ping now) true none none e).0) (λ h. sent)
            (λ h. sent))
        (λ h. v)

  ack_due-Holds :
      (a : PendingAck) (e : Endpoint S)
      → e.session.pending_ack ≡ some a
      → Holds (retries_of p) e
      → Holds (retries_of p) (ack_due p now a e)
  unfolding ack_due Holds
  ack_due-Holds a e h v =
      let P : Endpoint S → Type 0 = λ e. IsValid (retries_of p) e.session in
      if_then P (leb (u32 (1 + p.config.ack_max_retries)) a.attempts) (λ g. no_request v)
        (λ g.
          let few : a.attempts < 1 + p.config.ack_max_retries = ground arith in
          try_transmit-IsValid p now a.message true (some (a.seq, a.epoch)) (some a.epoch) e
            (subst (λ (o : Option PendingAck). Retryable (retries_of p) (some (a.seq, a.epoch)) o)
              (sym h) few)
            v)

  ack_retry-Holds :
      (e : Endpoint S) → Holds (retries_of p) e → Holds (retries_of p) (ack_retry p now e)
  unfolding ack_retry
  ack_retry-Holds e v =
      some_then (Holds (retries_of p)) e.session.pending_ack (λ h. v)
        (λ a h.
          if_then (Holds (retries_of p)) (leb a.deadline_ms now) (λ g. ack_due-Holds a e h v)
            (λ g. v))

  failed-Holds :
      (err : SessionError) (f : SessionStats → SessionStats) (e : Endpoint S)
      → Holds (retries_of p) e
      → Holds (retries_of p) (fail_session err (count f e))
  unfolding Holds
  failed-Holds err f e v = fail_session-Holds (retries_of p) err (count f e) v

  tick_shaking-Holds :
      (e : Endpoint S) → Holds (retries_of p) e → Holds (retries_of p) (tick_shaking p now e)
  unfolding tick_shaking
  tick_shaking-Holds e v =
      if_then (Holds (retries_of p)) (late p now e.session.connect_ms p.config.handshake_timeout_ms)
        (λ h.
          failed-Holds SessionError.handshake_timeout
            (λ s. record s { handshake_timeouts = suc s.handshake_timeouts }) e v)
        (λ h. drain_pending_hello-Holds e v)

  tick_connected-Holds :
      (e : Endpoint S) → Holds (retries_of p) e → Holds (retries_of p) (tick_connected p now e)
  unfolding tick_connected
  tick_connected-Holds e v =
      if_then (Holds (retries_of p))
        (late p now e.last_peer_rx_ms p.config.peer_timeout_ms
          && late p now e.last_data_plane_tx_ms p.config.peer_timeout_ms)
        (λ h.
          failed-Holds SessionError.peer_timeout
            (λ s. record s { ping_timeouts = suc s.ping_timeouts }) e v)
        (λ h. drain_pending_capabilities-Holds _ (ack_retry-Holds _ (heartbeat-Holds e v)))

  pub tick-Holds : (e : Endpoint S) → Holds (retries_of p) e → Holds (retries_of p) (tick p now e)
  unfolding tick
  tick-Holds e v =
      let e' = tick_decoder p now e in
      let v' = tick_decoder-Holds e v in
      if_then (Holds (retries_of p)) (is_shaking e'.session.state) (λ h. tick_shaking-Holds e' v')
        (λ h.
          if_then (Holds (retries_of p)) (is_connected e'.session.state)
            (λ h. tick_connected-Holds e' v') (λ h. v'))
