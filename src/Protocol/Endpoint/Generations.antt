-- ===== src/Protocol/Endpoint/Generations.antt =====
-- shared/protocol/protocol_endpoint.cpp: where a session begins and ends.
use espview.Base.{ℕ, suc, Bool, true, false, not, none, if◌then◌else◌}
use espview.Base.Word.{u64}
use espview.Protocol.Decoder
use espview.Protocol.FrameAssembler
use espview.Protocol.RuntimeStats.{no_rtt}
use espview.Protocol.Endpoint.{
  SessionState, SendResult, SessionError, no_hello, on_session_state, on_protocol_error, Session,
  Endpoint, Setup, on_session, call, reset_seq, on_frames, is_disconnected, is_shaking,
}
use espview.Protocol.Endpoint.Sending.{send_hello}

-- What every end or begin of a session clears.
abbrev pub clear_session : Session → Session
clear_session s = record s {
  epoch = u64 (suc s.epoch);
  pending_ack = none;
  pending_hello = none;
  pending_capabilities = none;
  peer_hello = no_hello;
  last_ping_ms = 0;
  last_ping_sent_at_ms = 0;
  last_ping_epoch = 0;
  stats = record s.stats { rtt = no_rtt; last_ping_time_ms = 0; last_pong_time_ms = 0 };
}

abbrev pub begin_session : ℕ → Session → Session
begin_session now s = record (clear_session s) { failed = false; connect_ms = now }

abbrev pub end_state : Session → Session
end_state s = record (clear_session s) { state = SessionState.disconnected }

abbrev pub fail_state : Session → Session
fail_state s = record (end_state s) {
  failed = true;
  stats = record (end_state s).stats { errors = suc s.stats.errors };
}

abbrev pub is_connecting : SessionState → Bool
is_connecting SessionState.connecting = true
is_connecting _ = false

module _ {ℓ} {S : Type ℓ} where
  -- A callback that is called if the state has changed.
  abbrev pub tell_state : Bool → SessionState → Endpoint S → Endpoint S
  tell_state changed state e = if changed then call (on_session_state state) e else e

  abbrev pub reset_decoder : Endpoint S → Endpoint S
  reset_decoder e =
      on_frames FrameAssembler.reset
        (record e { decoder = Decoder.reset e.decoder; decoder_reset_pending = false })

  unfoldable pub on_transport_disconnected : ℕ → Endpoint S → Endpoint S
  on_transport_disconnected now e =
      let cleared = reset_seq (on_session end_state (reset_decoder e)) in
      tell_state (not (is_disconnected e.session.state)) SessionState.disconnected
        (record cleared { last_peer_rx_ms = now; last_decoder_rx_ms = now })

  -- `setState`.
  unfoldable pub set_state : SessionState → Bool → Endpoint S → Endpoint S
  set_state state same e =
      if same
      then e
      else call (on_session_state state) (on_session (λ s. record s { state = state }) e)

  unfoldable pub complete_handshake : ℕ → Endpoint S → Endpoint S
  unfolding set_state
  complete_handshake now e =
      let e1 =
        on_frames FrameAssembler.reset
          (record (reset_seq e) { decoder = Decoder.reset_seq_baseline e.decoder }) in
      let e2 =
        on_session
          (λ s. record s {
            pending_ack = none;
            last_ping_ms = now;
            last_ping_sent_at_ms = 0;
            last_ping_epoch = 0;
          })
          e1 in
      if is_shaking e.session.state then set_state SessionState.connected false e2 else e

  -- In a callback of the decoder its reset is put off.
  unfoldable pub fail_session : SessionError → Endpoint S → Endpoint S
  fail_session err e =
      let cleared = reset_seq (on_session fail_state e) in
      let reset =
        if e.in_decoder_callback
        then record cleared { decoder_reset_pending = true }
        else reset_decoder cleared in
      if e.session.failed
      then e
      else tell_state (not (is_disconnected e.session.state)) SessionState.disconnected
          (call (on_protocol_error err) reset)

module _ {ℓ} {S : Type ℓ} (p : Setup S) (now : ℕ) where
  unfoldable pub on_transport_connected : Endpoint S → SendResult × Endpoint S
  on_transport_connected e =
      let begun = reset_seq (
        on_session (λ s. record (begin_session now s) { state = SessionState.connecting })
          (reset_decoder e)) in
      let told =
        tell_state (not (is_connecting e.session.state)) SessionState.connecting
          (record begun { last_peer_rx_ms = now; last_decoder_rx_ms = now }) in
      send_hello p now told
