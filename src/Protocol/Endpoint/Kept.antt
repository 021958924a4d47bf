-- ===== src/Protocol/Endpoint/Kept.antt =====
-- shared/protocol/protocol_endpoint.cpp: predicates through the handlers, from their parts.
use espview.Base.{
  ℕ, suc, Bool, true, not, ◌&&◌, ◌||◌, ◌==◌, ◌!=◌, List, if◌then◌else◌, if_then, some_then, ltb,
  length, take, drop,
}
use espview.Protocol.MessageType
use espview.Protocol.Message.{Message, allowed_ack_request_type}
use espview.Protocol.Message.Capabilities.{capabilities_payload_size, parse_capabilities}
use espview.Protocol.Message.Preview.{
  physical_preview_payload_size, physical_preview_pixel_bytes, parse_physical_preview,
}
use espview.Protocol.Message.Wifi.{parse_wifi_scan_result, parse_wifi_status}
use espview.Protocol.FrameAssembler
use espview.Protocol.FrameAssembler.{FrameAssembler, Stepped}
use espview.Protocol.Endpoint.{
  Call, SessionStats, SessionError, Endpoint, Setup, on_session, on_frames, is_disconnected,
  is_shaking, count, call, on_hello, on_error, on_capabilities, on_physical_preview,
  on_wifi_scan_result, on_wifi_status, HelloInfo,
}
use espview.Protocol.Endpoint.Acks.{wants_ack}
use espview.Protocol.Endpoint.Generations.{fail_session, complete_handshake}
use espview.Protocol.Endpoint.Handlers.{
  note_hello, handle_pong, handle_ack, handle_error, handle_capabilities, handle_physical_preview,
  handle_wifi_scan_result, handle_wifi_status, handle_ping, handle_hello, hello_info, hello_refusal,
  recover, dispatch, handle_message,
}

-- What the parts of the handlers keep, at one reading of the clock.
pub record Kept {ℓ} (S : Type ℓ) (p : Setup S) (now : ℕ) (P : Endpoint S → Type 0) : Type ℓ where
  pub call : (c : Call) (e : Endpoint S) → P e → P (call c e)
  pub on_frames : (f : FrameAssembler → Stepped) (e : Endpoint S) → P e → P (on_frames f e)
  pub count : (f : SessionStats → SessionStats) (e : Endpoint S) → P e → P (count f e)
  pub heard : (e : Endpoint S) → P e → P (record e { last_peer_rx_ms = now })
  pub noted : (hello : HelloInfo) (e : Endpoint S) → P e → P (on_session (note_hello hello) e)
  pub failed : (err : SessionError) (e : Endpoint S) → P e → P (fail_session err e)
  pub completed : (e : Endpoint S) → P e → P (complete_handshake now e)
  pub recovered : (e : Endpoint S) → P e → P (recover p now e).1
  pub ping : (payload : List ℕ) (e : Endpoint S) → P e → P (handle_ping p now payload e)
  pub pong : (e : Endpoint S) → P e → P (handle_pong now e)
  pub ack : (payload : List ℕ) (e : Endpoint S) → P e → P (handle_ack payload e)

module _ {ℓ} {S : Type ℓ} (p : Setup S) (now : ℕ) (P : Endpoint S → Type 0)
    (k : Kept S p now P) where
  -- A message that is counted and passed on.
  told :
      (f : SessionStats → SessionStats) (c : Call) (e : Endpoint S) → P e → P (call c (count f e))
  told f c e v = k.call c (count f e) (k.count f e v)

  handle_error_lem : (payload : List ℕ) (e : Endpoint S) → P e → P (handle_error payload e)
  unfolding handle_error
  handle_error_lem payload e v =
      if_then P (ltb (length payload) 3) (λ h. v) (λ h. k.call (on_error _ _) e v)

  handle_capabilities_lem :
      (payload : List ℕ) (e : Endpoint S) → P e → P (handle_capabilities payload e)
  unfolding handle_capabilities
  handle_capabilities_lem payload e v =
      let dropped =
        k.count (λ s. record s { capabilities_dropped = suc s.capabilities_dropped }) e v in
      if_then P (ltb (length payload) capabilities_payload_size) (λ h. dropped)
        (λ h.
          some_then P (parse_capabilities payload) (λ h. dropped)
            (λ i h.
              told (λ s. record s { rx_capabilities = suc s.rx_capabilities }) (on_capabilities i) e
                v))

  handle_physical_preview_lem :
      (payload : List ℕ) (e : Endpoint S) → P e → P (handle_physical_preview payload e)
  unfolding handle_physical_preview
  handle_physical_preview_lem payload e v =
      let dropped =
        k.count (λ s. record s { physical_preview_dropped = suc s.physical_preview_dropped }) e v in
      if_then P (ltb (length payload) physical_preview_payload_size) (λ h. dropped)
        (λ h.
          some_then P (parse_physical_preview payload) (λ h. dropped)
            (λ i h.
              told (λ s. record s { rx_physical_preview = suc s.rx_physical_preview })
                (on_physical_preview i (take physical_preview_pixel_bytes (drop 8 payload))) e v))

  handle_wifi_scan_result_lem :
      (payload : List ℕ) (e : Endpoint S) → P e → P (handle_wifi_scan_result payload e)
  unfolding handle_wifi_scan_result
  handle_wifi_scan_result_lem payload e v =
      some_then P (parse_wifi_scan_result payload)
        (λ h.
          k.count (λ s. record s { wifi_scan_result_dropped = suc s.wifi_scan_result_dropped }) e v)
        (λ i h.
          told (λ s. record s { rx_wifi_scan_result = suc s.rx_wifi_scan_result })
            (on_wifi_scan_result i) e v)

  handle_wifi_status_lem :
      (payload : List ℕ) (e : Endpoint S) → P e → P (handle_wifi_status payload e)
  unfolding handle_wifi_status
  handle_wifi_status_lem payload e v =
      some_then P (parse_wifi_status payload)
        (λ h. k.count (λ s. record s { wifi_status_dropped = suc s.wifi_status_dropped }) e v)
        (λ i h.
          told (λ s. record s { rx_wifi_status = suc s.rx_wifi_status }) (on_wifi_status i) e v)

  handle_hello_lem : (payload : List ℕ) (e : Endpoint S) → P e → P (handle_hello p now payload e)
  unfolding handle_hello
  handle_hello_lem payload e v =
      let noted = on_session (note_hello (hello_info payload)) e in
      let v' = k.noted (hello_info payload) e v in
      let t : Bool × Endpoint S =
        if is_disconnected e.session.state then recover p now noted else (true, noted) in
      let told = call (on_hello (hello_info payload)) t.1 in
      let good : P told = k.call (on_hello (hello_info payload)) t.1 (
        if_then (λ (t : Bool × Endpoint S). P t.1) (is_disconnected e.session.state)
          (λ h. k.recovered noted v') (λ h. v')) in
      some_then P (hello_refusal p.config.protocol_version payload)
        (λ h.
          if_then P (t.0 && is_shaking told.session.state) (λ h. k.completed told good) (λ h. good))
        (λ err h. k.failed err e v)

  dispatch_lem : (msg : Message) (e : Endpoint S) → P e → P (dispatch p now msg e)
  unfolding dispatch
  dispatch_lem msg e v =
      if_then P (msg.type == MessageType.hello) (λ h. handle_hello_lem msg.payload e v)
        (λ h.
          if_then P (msg.type == MessageType.ping) (λ h. k.ping msg.payload e v)
            (λ h.
              if_then P (msg.type == MessageType.pong) (λ h. k.pong e v)
                (λ h.
                  if_then P (msg.type == MessageType.ack) (λ h. k.ack msg.payload e v)
                    (λ h.
                      if_then P (msg.type == MessageType.error)
                        (λ h. handle_error_lem msg.payload e v)
                        (λ h.
                          if_then P (msg.type == MessageType.capabilities)
                            (λ h. handle_capabilities_lem msg.payload e v)
                            (λ h.
                              if_then P (msg.type == MessageType.physical_preview)
                                (λ h. handle_physical_preview_lem msg.payload e v)
                                (λ h.
                                  if_then P (msg.type == MessageType.wifi_scan_result)
                                    (λ h. handle_wifi_scan_result_lem msg.payload e v)
                                    (λ h.
                                      if_then P (msg.type == MessageType.wifi_status)
                                        (λ h. handle_wifi_status_lem msg.payload e v)
                                        (λ h.
                                          if_then P
                                            ((msg.type == MessageType.frame_begin
                                                || msg.type == MessageType.frame_rect)
                                              || msg.type == MessageType.frame_end)
                                            (λ h. k.on_frames (FrameAssembler.on_message msg) e v)
                                            (λ h.
                                              if_then P (wants_ack msg) (λ h. k.call _ e v)
                                                (λ h. k.call _ e v)))))))))))

  pub handle_message_lem : (msg : Message) (e : Endpoint S) → P e → P (handle_message p now msg e)
  unfolding handle_message
  handle_message_lem msg e v =
      let e' = record (count (λ s. record s { rx_messages = suc s.rx_messages }) e) {
        last_peer_rx_ms = now;
      } in
      let v' =
        k.heard (count (λ s. record s { rx_messages = suc s.rx_messages }) e)
          (k.count (λ s. record s { rx_messages = suc s.rx_messages }) e v) in
      if_then P (is_disconnected e.session.state && (msg.type != MessageType.hello)) (λ h. v)
        (λ h.
          if_then P (wants_ack msg && not (allowed_ack_request_type msg.type))
            (λ h. k.count (λ s. record s { invalid_ack_req = suc s.invalid_ack_req }) e' v')
            (λ h. dispatch_lem msg e' v'))
