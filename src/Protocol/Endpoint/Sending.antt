-- ===== src/Protocol/Endpoint/Sending.antt =====
-- shared/protocol/protocol_endpoint.cpp: the sending side. What `tryTransmit` and `transmit` do while
-- they hold `sendMutex_` is one step here; `retry` has the `retrySeq` and `retryEpoch` of a
-- retry, and `check` the epoch that a deferred message belongs to.
use espview.Base.{
  ℕ, suc, ◌+◌, Bool, true, false, not, ◌&&◌, List, Option, none, some, bit_and, ltb, ◌!=◌,
  if◌then◌else◌, length,
}
use espview.Base.Word.{u16}
use espview.Protocol.Wire.{ErrorCode, max_packet_payload}
use espview.Protocol.Packet.{PacketError, PacketHeader, empty_header, decode_header}
use espview.Protocol.Message.{Message, allowed_ack_request_type}
use espview.Protocol.Message.Builders.{make_hello, make_ack, make_error}
use espview.Protocol.Message.Capabilities.{CapabilitiesInfo, make_capabilities}
use espview.Protocol.Message.Preview.{PhysicalPreviewInfo, make_physical_preview}
use espview.Protocol.Message.Wifi.{
  WifiScanResultInfo, WifiStatusInfo, make_wifi_scan_result, make_wifi_status,
  wifi_scan_result_flag_truncated,
}
use espview.Protocol.Encoder.{Sent}
use espview.Protocol.Encoder.Total.{streamed}
use espview.Protocol.Endpoint.Acks.{wants_ack, after_send}
use espview.Protocol.Endpoint.{
  is_sent, is_connected, is_disconnected, SendStatus, SendResult, Session, Endpoint, Setup,
  on_session,
}

-- What the sink of `encodeStream` keeps, with the transport's state.
pub record Sending {ℓ} (S : Type ℓ) : Type ℓ where
  pub link : S
  pub aborted : Bool
  pub sink_result : SendStatus
  pub sent_count : ℕ
  pub first_seq : Option ℕ

abbrev pub is_ok : PacketError → Bool
is_ok PacketError.ok = true
is_ok _ = false

-- The sequence number in a packet's header.
unfoldable pub header_seq : PacketError × Option PacketHeader → Option ℕ
header_seq (PacketError.ok, some h) = some h.seq
header_seq _ = none

unfoldable pub note_seq : Bool → List ℕ → Option ℕ → Option ℕ
unfolding header_seq
note_seq false bytes found = found
note_seq true bytes none = header_seq (decode_header (some bytes) (some empty_header))
note_seq true bytes (some seq) = some seq

unfoldable pub sink_error : SendStatus → SendResult
sink_error SendStatus.backpressure = SendResult.backpressure
sink_error _ = SendResult.transport_error

abbrev pub stale : Option ℕ → ℕ → Bool
stale none epoch = false
stale (some retry_epoch) epoch = epoch != retry_epoch

abbrev pub is_null {ℓ} : {A : Type ℓ} → Option A → Bool
is_null none = true
is_null (some a) = false

abbrev pub keep_hello : Message → Session → Session
keep_hello hello s = record s { pending_hello = some hello }

abbrev pub count_hello : Session → Session
count_hello s = record s { stats = record s.stats { tx_hello = suc s.stats.tx_hello } }

abbrev pub count_ack : Session → Session
count_ack s = record s { stats = record s.stats { ack_sent = suc s.stats.ack_sent } }

abbrev pub count_preview : Session → Session
count_preview s = record s {
  stats = record s.stats { tx_physical_preview = suc s.stats.tx_physical_preview };
}

abbrev pub count_scan : Session → Session
count_scan s = record s {
  stats = record s.stats { tx_wifi_scan_result = suc s.stats.tx_wifi_scan_result };
}

abbrev pub count_status : Session → Session
count_status s = record s { stats = record s.stats { tx_wifi_status = suc s.stats.tx_wifi_status } }

abbrev pub count_capabilities : Session → Session
count_capabilities s = record s {
  stats = record s.stats { tx_capabilities = suc s.stats.tx_capabilities };
}

abbrev pub keep_capabilities : Message → Session → Session
keep_capabilities msg s = record s { pending_capabilities = some msg }

abbrev pub drop_message : Message → Session → Session
drop_message msg s = s

-- What a transmission returns: the result, the sequence number of its first packet if that was noted,
-- and the endpoint.
abbrev pub Transmitted {ℓ} : Type ℓ → Type ℓ
Transmitted S = SendResult × Option ℕ × Endpoint S

module _ {ℓ} {S : Type ℓ} where
  abbrev pub start : S → Sending S
  start link = record {
    link = link;
    aborted = false;
    sink_result = SendStatus.ok;
    sent_count = 0;
    first_seq = none;
  }

  unfoldable pub answer : SendStatus → Sending S → Bool × Sending S
  answer SendStatus.ok s = (true, record s { sent_count = suc s.sent_count })
  answer status s = (false, record s { aborted = true; sink_result = status })

  unfoldable pub packet_sink :
      Bool → (S → List ℕ → SendStatus × S) → Sending S → List ℕ → Bool × Sending S
  unfolding answer note_seq
  packet_sink ack sink s bytes =
      let (status, link) = sink s.link bytes in
      answer status (record s { link = link; first_seq = note_seq ack bytes s.first_seq })

  unfoldable pub rollback_seq : ℕ → ℕ → ℕ → Endpoint S → Endpoint S
  rollback_seq epoch_before seq_before sent_count e =
      if e.session.epoch != epoch_before
      then e
      else record e { encoder = record e.encoder { seq = u16 (seq_before + sent_count) } }

  -- What follows `encodeStream`.
  unfoldable pub sent : ℕ → ℕ → Sent (Sending S) → Endpoint S → Transmitted S
  unfolding rollback_seq
  sent epoch_before seq_before r e =
      let s = r.sink_state in
      let e' = record e { encoder = r.encoder; link = s.link } in
      let back = rollback_seq epoch_before seq_before s.sent_count e' in
      if s.aborted
      then (sink_error s.sink_result, s.first_seq, back)
      else if not (is_ok r.error)
      then (SendResult.invalid_message, s.first_seq, back)
      else (SendResult.ok, s.first_seq, e')

  -- Why a message is not even encoded.
  unfoldable pub refusal :
      Message → Bool → Option (S → List ℕ → SendStatus × S) → Option ℕ → Session → Option SendResult
  refusal msg require_connected sink check s =
      if stale check s.epoch
      then some SendResult.not_connected
      else if is_disconnected s.state
      then some SendResult.not_connected
      else if require_connected && not (is_connected s.state)
      then some SendResult.not_connected
      else if is_null sink
      then some SendResult.transport_error
      else if wants_ack msg && not (allowed_ack_request_type msg.type)
      then some SendResult.invalid_message
      else if wants_ack msg && ltb max_packet_payload (length msg.payload)
      then some SendResult.invalid_message
      else none

  unfoldable pub encode_to :
      Message → Option (S → List ℕ → SendStatus × S) → Endpoint S → Transmitted S
  unfolding packet_sink sent streamed
  encode_to msg none e = (SendResult.transport_error, none, e)
  encode_to msg (some sink) e =
      sent e.session.epoch e.encoder.seq
        (streamed (packet_sink (wants_ack msg) sink) msg e.encoder (start e.link)) e

  unfoldable pub transmit_impl_with_sink :
      Message → Bool → Option (S → List ℕ → SendStatus × S) → Option ℕ → Endpoint S → Transmitted S
  unfolding refusal encode_to
  transmit_impl_with_sink msg require_connected sink check e =
      let encoded = encode_to msg sink e in
      elim (refusal msg require_connected sink check e.session) [
        | some r ↦ (r, none, e)
        | none ↦ encoded
      ]

  abbrev pub done :
      (timeout now : ℕ) → Message → Option (ℕ × ℕ) → Transmitted S → SendResult × Endpoint S
  done timeout now msg retry (r, first_seq, e) =
      (r, on_session (after_send timeout now msg retry r first_seq) e)

  -- After a `tryTransmit`: what is counted if it succeeded, and what is done if not.
  abbrev pub counted :
      (Session → Session) → (Session → Session) → SendResult × Endpoint S → SendResult × Endpoint S
  counted good bad (r, e) = (r, if is_sent r then on_session good e else on_session bad e)

  module _ (p : Setup S) (now : ℕ) where
    unfoldable pub transmit : Message → Bool → Endpoint S → SendResult × Endpoint S
    unfolding transmit_impl_with_sink
    transmit msg require_connected e =
        done p.config.ack_timeout_ms now msg none
          (transmit_impl_with_sink msg require_connected p.sink none e)

    unfoldable pub try_transmit :
        Message → Bool → Option (ℕ × ℕ) → Option ℕ → Endpoint S → SendResult × Endpoint S
    unfolding transmit_impl_with_sink
    try_transmit msg require_connected retry check e =
        let (free, link) = p.try_lock e.link in
        let e' = record e { link = link } in
        let sink = if is_null p.try_sink then p.sink else p.try_sink in
        if free
        then done p.config.ack_timeout_ms now msg retry
            (transmit_impl_with_sink msg require_connected sink check e')
        else (SendResult.backpressure, e')

    abbrev pub send_message : Message → Endpoint S → SendResult × Endpoint S
    send_message msg e = transmit msg true e

    abbrev pub built_hello : Option Message
    built_hello =
        let c = p.config in
        make_hello c.protocol_version c.device_class c.width c.height c.pixel_format c.mode_mask
          c.device_name

    unfoldable pub send_hello : Endpoint S → SendResult × Endpoint S
    unfolding try_transmit
    send_hello e = elim built_hello [
      | none ↦ (SendResult.invalid_message, e)
      | some hello ↦ counted count_hello (keep_hello hello) (try_transmit hello false none none e)
    ]

    abbrev pub acknowledge : ℕ → ℕ → ErrorCode → Endpoint S → SendResult × Endpoint S
    acknowledge ack_seq status error_code e =
        counted count_ack (drop_message (make_ack ack_seq status error_code))
          (try_transmit (make_ack ack_seq status error_code) false none none e)

    abbrev pub send_error : ErrorCode → List ℕ → Endpoint S → SendResult × Endpoint S
    send_error error_code text e = elim (make_error error_code text) [
      | none ↦ (SendResult.invalid_message, e)
      | some msg ↦ transmit msg false e
    ]

    -- A message that is sent if the builder made it, and then counted.
    abbrev pub send_built :
        Option Message
        → (Session → Session)
        → (Message → Session → Session)
        → Endpoint S
        → SendResult × Endpoint S
    send_built none good bad e = (SendResult.invalid_message, e)
    send_built (some msg) good bad e = counted good (bad msg) (try_transmit msg true none none e)

    abbrev pub send_physical_preview :
        PhysicalPreviewInfo → Option (List ℕ) → Endpoint S → SendResult × Endpoint S
    send_physical_preview info pixels =
        send_built (make_physical_preview info pixels) count_preview drop_message

    abbrev pub send_wifi_scan_result : WifiScanResultInfo → Endpoint S → SendResult × Endpoint S
    send_wifi_scan_result r =
        send_built
          (make_wifi_scan_result r.scan_seq (bit_and r.flags wifi_scan_result_flag_truncated != 0)
            r.total r.records)
          count_scan drop_message

    abbrev pub send_wifi_status : WifiStatusInfo → Endpoint S → SendResult × Endpoint S
    send_wifi_status i =
        send_built
          (make_wifi_status i.phase i.error_code i.flags i.rssi i.channel i.ip i.server_ip
            i.server_port i.ssid)
          count_status drop_message

    abbrev pub send_capabilities : CapabilitiesInfo → Endpoint S → SendResult × Endpoint S
    send_capabilities caps =
        send_built (make_capabilities caps) count_capabilities keep_capabilities
