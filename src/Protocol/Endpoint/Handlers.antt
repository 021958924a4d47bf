-- ===== src/Protocol/Endpoint/Handlers.antt =====
-- shared/protocol/protocol_endpoint.cpp: what the endpoint does with the messages it received.
use espview.Base.{
  ℕ, suc, ◌+◌, ◌-◌, Bool, true, false, not, ◌&&◌, ◌||◌, List, [], Option, none, some, ltb, ◌==◌,
  ◌!=◌, if◌then◌else◌, length, take, drop, get_or,
}
use espview.Base.Word.{u32}
use espview.Protocol.MessageType
use espview.Protocol.ByteOrder.{read_u16_le, read_u64_le}
use espview.Protocol.Message.{Message, allowed_ack_request_type}
use espview.Protocol.Message.Builders.{make_pong}
use espview.Protocol.Message.Capabilities.{capabilities_payload_size, parse_capabilities}
use espview.Protocol.Message.Preview.{
  physical_preview_payload_size, physical_preview_pixel_bytes, parse_physical_preview,
}
use espview.Protocol.Message.Wifi.{parse_wifi_scan_result, parse_wifi_status}
use espview.Protocol.Decoder
use espview.Protocol.FrameAssembler
use espview.Protocol.RuntimeStats.{record_rtt}
use espview.Protocol.Endpoint.{
  SessionState, SessionError, HelloInfo, PendingAck, on_hello, on_ack_request, on_ack, on_error,
  on_capabilities, on_physical_preview, on_wifi_scan_result, on_wifi_status, on_other_message,
  Session, Endpoint, Setup, on_session, count, call, reset_seq, on_frames, is_sent, is_disconnected,
  is_shaking,
}
use espview.Protocol.Endpoint.Acks.{wants_ack}
use espview.Protocol.Endpoint.Sending.{try_transmit, counted, built_hello, keep_hello, count_hello}
use espview.Protocol.Endpoint.Generations.{
  begin_session, set_state, complete_handshake, fail_session,
}

abbrev pub read_u16 : List ℕ → ℕ → ℕ
read_u16 p off = if ltb (length p) (off + 2) then 0 else read_u16_le (drop off p)

abbrev pub read_u64 : List ℕ → ℕ → ℕ
read_u64 p off = if ltb (length p) (off + 8) then 0 else read_u64_le (drop off p)

abbrev pub hello_info : List ℕ → HelloInfo
hello_info p = record {
  protocol_version = get_or p 0 0;
  device_class = get_or p 1 0;
  width = read_u16 p 2;
  height = read_u16 p 4;
  pixel_format = get_or p 6 0;
  mode_mask = get_or p 7 0;
  device_name = drop 9 p;
}

-- Why a HELLO is refused.
unfoldable pub hello_refusal : ℕ → List ℕ → Option SessionError
hello_refusal version p =
    if ltb (length p) 9
    then some SessionError.hello_invalid_layout
    else if length p != 9 + get_or p 8 0
    then some SessionError.hello_invalid_layout
    else if get_or p 0 0 != version
    then some SessionError.hello_version_mismatch
    else none

abbrev pub note_hello : HelloInfo → Session → Session
note_hello hello s = record s {
  peer_hello = hello;
  stats = record s.stats { rx_hello = suc s.stats.rx_hello };
}

-- Whether the acknowledgement is for the request that waits.
unfoldable pub matches : ℕ → ℕ → Option PendingAck → Bool
matches ack_seq epoch none = false
matches ack_seq epoch (some p) = p.seq == ack_seq && p.epoch == epoch

module _ {ℓ} {S : Type ℓ} where
  unfoldable pub handle_pong : ℕ → Endpoint S → Endpoint S
  handle_pong now e =
      let s = e.session in
      let t = s.last_ping_sent_at_ms in
      let counts = record s.stats { rx_pong = suc s.stats.rx_pong; last_pong_time_ms = now } in
      let rtt = if ltb t now then record_rtt (u32 (now - t)) s.stats.rtt else s.stats.rtt in
      if t != 0 && s.last_ping_epoch == s.epoch
      then on_session
          (λ s. record s {
            last_ping_sent_at_ms = 0;
            last_ping_epoch = 0;
            stats = record counts { rtt = rtt };
          })
          e
      else on_session (λ s. record s { stats = counts }) e

  unfoldable pub handle_ack : List ℕ → Endpoint S → Endpoint S
  unfolding matches
  handle_ack payload e =
      let ack_seq = read_u16 payload 0 in
      let e' = count (λ s. record s { ack_received = suc s.ack_received }) e in
      if ltb (length payload) 5
      then e
      else if matches ack_seq e.session.epoch e.session.pending_ack
      then call (on_ack ack_seq (get_or payload 2 0) (read_u16 payload 3))
          (on_session (λ s. record s { pending_ack = none }) e')
      else e'

  unfoldable pub handle_error : List ℕ → Endpoint S → Endpoint S
  handle_error payload e =
      let size = get_or payload 2 0 in
      if ltb (length payload) 3
      then e
      else call
          (on_error (read_u16 payload 0)
            (if ltb (length payload) (3 + size) then [] else take size (drop 3 payload)))
          e

  unfoldable pub handle_capabilities : List ℕ → Endpoint S → Endpoint S
  handle_capabilities payload e =
      let dropped = count (λ s. record s { capabilities_dropped = suc s.capabilities_dropped }) e in
      let parsed : Endpoint S = elim (parse_capabilities payload) [
        | none ↦ dropped
        | some info ↦
            call (on_capabilities info)
              (count (λ s. record s { rx_capabilities = suc s.rx_capabilities }) e)
      ] in
      if ltb (length payload) capabilities_payload_size then dropped else parsed

  unfoldable pub handle_physical_preview : List ℕ → Endpoint S → Endpoint S
  handle_physical_preview payload e =
      let dropped =
        count (λ s. record s { physical_preview_dropped = suc s.physical_preview_dropped }) e in
      let parsed : Endpoint S = elim (parse_physical_preview payload) [
        | none ↦ dropped
        | some info ↦
            call (on_physical_preview info (take physical_preview_pixel_bytes (drop 8 payload)))
              (count (λ s. record s { rx_physical_preview = suc s.rx_physical_preview }) e)
      ] in
      if ltb (length payload) physical_preview_payload_size then dropped else parsed

  unfoldable pub handle_wifi_scan_result : List ℕ → Endpoint S → Endpoint S
  handle_wifi_scan_result payload e = elim (parse_wifi_scan_result payload) [
    | none ↦ count (λ s. record s { wifi_scan_result_dropped = suc s.wifi_scan_result_dropped }) e
    | some info ↦
        call (on_wifi_scan_result info)
          (count (λ s. record s { rx_wifi_scan_result = suc s.rx_wifi_scan_result }) e)
  ]

  unfoldable pub handle_wifi_status : List ℕ → Endpoint S → Endpoint S
  handle_wifi_status payload e = elim (parse_wifi_status payload) [
    | none ↦ count (λ s. record s { wifi_status_dropped = suc s.wifi_status_dropped }) e
    | some info ↦
        call (on_wifi_status info)
          (count (λ s. record s { rx_wifi_status = suc s.rx_wifi_status }) e)
  ]

  abbrev pub handle_ack_request : Message → Endpoint S → Endpoint S
  handle_ack_request msg e =
      call (on_ack_request msg.type msg.payload e.session.last_single_packet_seq) e

module _ {ℓ} {S : Type ℓ} (p : Setup S) (now : ℕ) where
  unfoldable pub handle_ping : List ℕ → Endpoint S → Endpoint S
  handle_ping payload e =
      let e' = count (λ s. record s { rx_ping = suc s.rx_ping }) e in
      (counted (λ s. record s { stats = record s.stats { tx_pong = suc s.stats.tx_pong } }) (λ s. s)
        (try_transmit p now (make_pong (read_u64 payload 0)) true none none e')).1

  -- The answer to a HELLO that finds the endpoint disconnected, and whether it went out.
  unfoldable pub answer_hello : Option Message → Endpoint S → Bool × Endpoint S
  answer_hello none e = (false, e)
  answer_hello (some hello) e =
      let (r, e') = try_transmit p now hello false none none e in
      (is_sent r, if is_sent r then on_session count_hello e' else on_session (keep_hello hello) e')

  -- The passive recovery.
  unfoldable pub recover : Endpoint S → Bool × Endpoint S
  unfolding answer_hello
  recover e =
      let begun = on_session (begin_session now) (
        on_frames FrameAssembler.reset
          (record (reset_seq e) { decoder = Decoder.reset_seq_baseline e.decoder })) in
      answer_hello (built_hello p now) (
        set_state SessionState.connecting false
          (record begun { decoder_reset_pending = false; last_peer_rx_ms = now }))

  unfoldable pub handle_hello : List ℕ → Endpoint S → Endpoint S
  unfolding hello_refusal recover
  handle_hello payload e =
      let hello = hello_info payload in
      let noted = on_session (note_hello hello) e in
      let (sent, e') = if is_disconnected e.session.state then recover noted else (true, noted) in
      let told = call (on_hello hello) e' in
      elim (hello_refusal p.config.protocol_version payload) [
        | some err ↦ fail_session err e
        | none ↦ if sent && is_shaking told.session.state then complete_handshake now told else told
      ]

  -- The `switch` over the type.
  unfoldable pub dispatch : Message → Endpoint S → Endpoint S
  unfolding handle_hello handle_ping
  dispatch msg e =
      if msg.type == MessageType.hello
      then handle_hello msg.payload e
      else if msg.type == MessageType.ping
      then handle_ping msg.payload e
      else if msg.type == MessageType.pong
      then handle_pong now e
      else if msg.type == MessageType.ack
      then handle_ack msg.payload e
      else if msg.type == MessageType.error
      then handle_error msg.payload e
      else if msg.type == MessageType.capabilities
      then handle_capabilities msg.payload e
      else if msg.type == MessageType.physical_preview
      then handle_physical_preview msg.payload e
      else if msg.type == MessageType.wifi_scan_result
      then handle_wifi_scan_result msg.payload e
      else if msg.type == MessageType.wifi_status
      then handle_wifi_status msg.payload e
      else if (msg.type == MessageType.frame_begin || msg.type == MessageType.frame_rect)
          || msg.type == MessageType.frame_end
      then on_frames (FrameAssembler.on_message msg) e
      else if wants_ack msg
      then handle_ack_request msg e
      else call (on_other_message msg) e

  unfoldable pub handle_message : Message → Endpoint S → Endpoint S
  unfolding dispatch
  handle_message msg e =
      let e' = record (count (λ s. record s { rx_messages = suc s.rx_messages }) e) {
        last_peer_rx_ms = now;
      } in
      if is_disconnected e.session.state && (msg.type != MessageType.hello)
      then e
      else if wants_ack msg && not (allowed_ack_request_type msg.type)
      then count (λ s. record s { invalid_ack_req = suc s.invalid_ack_req }) e'
      else dispatch msg e'
