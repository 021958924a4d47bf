-- ===== src/Protocol/Endpoint/Tests.antt =====
-- An endpoint at concrete inputs, over a transport that keeps every packet.
use espview.Base.{arith, Bool, HasValue, ℕ, true, List, [], ◌∷◌, ◌++◌, none, some}
use espview.Protocol.Wire.{PixelFormat, DisplayMode}
use espview.Protocol.Message.{Message}
use espview.Protocol.Message.Builders.{make_set_mode}
use espview.Protocol.Endpoint.{Endpoint, EndpointConfig, Setup, SendStatus, SessionState, init}
use espview.Protocol.Endpoint.Terminating.{Ends, steps_end}
use espview.Protocol.Encoder.Emitting.{init-IsReady}
use espview.Protocol.Endpoint.{init_session}
use espview.Protocol.Endpoint.Sending.{Sending, packet_sink, transmit_impl_with_sink}
use espview.Protocol.Encoder.{Encoder, encode_stream}
use espview.Protocol.Endpoint.Sequence.{noting}
use espview.Protocol.Endpoint.Consecutive.{Consecutive, transmit_impl_with_sink-Consecutive}
use espview.Protocol.Endpoint.Steps.{
  Input, steps, transport_connected, ticked, data_received, message_sent,
}

abbrev config : EndpointConfig
config = record {
  protocol_version = 1;
  device_class = 0;
  width = 320;
  height = 240;
  pixel_format = PixelFormat.rgb565;
  mode_mask = 15;
  device_name = 0x65 ∷ [];
  ping_interval_ms = 2000;
  peer_timeout_ms = 5000;
  handshake_timeout_ms = 5000;
  ack_timeout_ms = 500;
  ack_max_retries = 2;
}

abbrev keep_packet : List (List ℕ) → List ℕ → SendStatus × List (List ℕ)
keep_packet packets bytes = (SendStatus.ok, packets ++ (bytes ∷ []))

abbrev setup : Setup (List (List ℕ))
setup = record {
  config = config;
  sink = some keep_packet;
  try_sink = none;
  try_lock = λ packets. (true, packets);
}

-- The packet of the peer's HELLO, with the sequence number 0.
abbrev hello_packet : List ℕ
hello_packet =
    69 ∷ 83 ∷ 80 ∷ 86 ∷ 1 ∷ 1 ∷ 0 ∷ 0 ∷ 0 ∷ 0 ∷ 10 ∷ 0 ∷ 0 ∷ 0 ∷ 47 ∷ 228 ∷ 20 ∷ 218 ∷ 0 ∷ 0 ∷ 1 ∷ 0
    ∷ 64 ∷ 1 ∷ 240 ∷ 0 ∷ 1 ∷ 15 ∷ 1 ∷ 112 ∷ []

-- The packet of the peer's ACK of the request 1.
abbrev ack_packet : List ℕ
ack_packet =
    69 ∷ 83 ∷ 80 ∷ 86 ∷ 1 ∷ 81 ∷ 0 ∷ 0 ∷ 0 ∷ 0 ∷ 5 ∷ 0 ∷ 0 ∷ 0 ∷ 18 ∷ 153 ∷ 245 ∷ 114 ∷ 0 ∷ 0 ∷ 1
    ∷ 0 ∷ 0 ∷ 0 ∷ 0 ∷ []

abbrev inputs : List (ℕ × Input)
inputs =
    (0, transport_connected)
    ∷ (10, data_received hello_packet)
    ∷ (20, message_sent (make_set_mode DisplayMode.window))
    ∷ (700, ticked)
    ∷ []

abbrev run : Ends setup (steps setup inputs (init 65536 []))
run = (steps_end setup 65536 [] inputs).0

steps_end_example :
    Ends setup (steps setup inputs (init 65536 []))
    × ((ack : Bool) (sink : List (List ℕ) → List ℕ → SendStatus × List (List ℕ)) (msg : Message)
          (enc : Encoder) (s : Sending (List (List ℕ)))
        → HasValue (encode_stream (packet_sink ack sink) msg enc s))
steps_end_example = steps_end setup 65536 [] inputs

abbrev hello_payload : List ℕ
hello_payload = 1 ∷ 0 ∷ 64 ∷ 1 ∷ 240 ∷ 0 ∷ 1 ∷ 15 ∷ 1 ∷ 112 ∷ []

abbrev fresh : Endpoint (List (List ℕ))
fresh = init 65536 []

abbrev noted_link : List (List ℕ) × List ℕ
noted_link = ([], [])

abbrev connected_endpoint : Endpoint (List (List ℕ) × List ℕ)
connected_endpoint = record (init 65536 noted_link) {
  session = record init_session { state = SessionState.connected };
}

transmit_impl_with_sink-Consecutive_example :
    Consecutive connected_endpoint
      (transmit_impl_with_sink
        (make_set_mode DisplayMode.window)
        true
        (some (noting keep_packet))
        none
        connected_endpoint).2
transmit_impl_with_sink-Consecutive_example =
    transmit_impl_with_sink-Consecutive (make_set_mode DisplayMode.window) true keep_packet none
      connected_endpoint (init-IsReady 0 (omega arith))
