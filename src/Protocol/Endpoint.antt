-- ===== src/Protocol/Endpoint.antt =====
-- shared/protocol/protocol_endpoint.h: the state of an endpoint of the protocol. The locks have no
-- counterpart: the calls come one after the other, each with one reading of the clock.
pub mod Acks
pub mod Sending
pub mod Generations
pub mod Handlers
pub mod Receiving
pub mod Ticking
pub mod Steps
pub mod Kept
pub mod Invariant
pub mod Feeding
pub mod Totality
pub mod Terminating
pub mod Recovery
pub mod Sequence
pub mod Consecutive
mod Tests
use mathlib.Core.Option
use espview.Base.{
  ℕ, zero, suc, ◌+◌, ◌-◌, ◌^◌, ◌%◌, Bool, true, false, List, [], ◌∷◌, ◌++◌, map, Option,
}
use espview.Protocol.Wire.{PixelFormat}
use espview.Protocol.Message.{Message}
use espview.Protocol.Message.Capabilities.{CapabilitiesInfo}
use espview.Protocol.Message.Preview.{PhysicalPreviewInfo}
use espview.Protocol.Message.Wifi.{WifiScanResultInfo, WifiStatusInfo}
use espview.Protocol.Encoder.{Encoder}
use espview.Protocol.Encoder
use espview.Protocol.Decoder.{StreamDecoder}
use espview.Protocol.Decoder
use espview.Protocol.FrameAssembler.{FrameAssembler, FrameEvent, Stepped}
use espview.Protocol.FrameAssembler
use espview.Protocol.RuntimeStats.{RttAggregate, no_rtt}

pub data SessionState : Type 0 where
  disconnected connecting handshake connected : SessionState

abbrev pub is_disconnected : SessionState → Bool
is_disconnected SessionState.disconnected = true
is_disconnected _ = false

abbrev pub is_connected : SessionState → Bool
is_connected SessionState.connected = true
is_connected _ = false

-- `kConnecting` or `kHandshake`.
abbrev pub is_shaking : SessionState → Bool
is_shaking SessionState.connecting = true
is_shaking SessionState.handshake = true
is_shaking _ = false

-- `transport::SendStatus`.
pub data SendStatus : Type 0 where
  ok backpressure error not_connected : SendStatus

pub data SendResult : Type 0 where
  ok not_connected invalid_message transport_error backpressure : SendResult

abbrev pub is_sent : SendResult → Bool
is_sent SendResult.ok = true
is_sent _ = false

pub data SessionError : Type 0 where
  none hello_version_mismatch hello_invalid_layout hello_duplicate : SessionError
  handshake_timeout peer_timeout : SessionError

pub record EndpointConfig : Type 0 where
  pub protocol_version : ℕ
  pub device_class : ℕ
  pub width : ℕ
  pub height : ℕ
  pub pixel_format : PixelFormat
  pub mode_mask : ℕ
  pub device_name : List ℕ
  pub ping_interval_ms : ℕ
  pub peer_timeout_ms : ℕ
  pub handshake_timeout_ms : ℕ
  pub ack_timeout_ms : ℕ
  pub ack_max_retries : ℕ

-- A pixel format is kept as the byte that came.
pub record HelloInfo : Type 0 where
  pub protocol_version : ℕ
  pub device_class : ℕ
  pub width : ℕ
  pub height : ℕ
  pub pixel_format : ℕ
  pub mode_mask : ℕ
  pub device_name : List ℕ

abbrev pub no_hello : HelloInfo
no_hello = record {
  protocol_version = 0;
  device_class = 0;
  width = 0;
  height = 0;
  pixel_format = 0;
  mode_mask = 0;
  device_name = [];
}

pub record SessionStats : Type 0 where
  pub tx_hello : ℕ
  pub rx_hello : ℕ
  pub tx_ping : ℕ
  pub rx_ping : ℕ
  pub tx_pong : ℕ
  pub rx_pong : ℕ
  pub ping_timeouts : ℕ
  pub handshake_timeouts : ℕ
  pub ack_sent : ℕ
  pub ack_received : ℕ
  pub ack_retries : ℕ
  pub ack_failures : ℕ
  pub errors : ℕ
  pub rx_messages : ℕ
  pub tx_messages : ℕ
  pub rx_capabilities : ℕ
  pub tx_capabilities : ℕ
  pub capabilities_dropped : ℕ
  pub rx_physical_preview : ℕ
  pub tx_physical_preview : ℕ
  pub physical_preview_dropped : ℕ
  pub rx_wifi_scan_result : ℕ
  pub tx_wifi_scan_result : ℕ
  pub wifi_scan_result_dropped : ℕ
  pub rx_wifi_status : ℕ
  pub tx_wifi_status : ℕ
  pub wifi_status_dropped : ℕ
  pub last_ping_time_ms : ℕ
  pub last_pong_time_ms : ℕ
  pub rtt : RttAggregate
  pub invalid_ack_req : ℕ

abbrev pub no_session_stats : SessionStats
no_session_stats = record {
  tx_hello = 0;
  rx_hello = 0;
  tx_ping = 0;
  rx_ping = 0;
  tx_pong = 0;
  rx_pong = 0;
  ping_timeouts = 0;
  handshake_timeouts = 0;
  ack_sent = 0;
  ack_received = 0;
  ack_retries = 0;
  ack_failures = 0;
  errors = 0;
  rx_messages = 0;
  tx_messages = 0;
  rx_capabilities = 0;
  tx_capabilities = 0;
  capabilities_dropped = 0;
  rx_physical_preview = 0;
  tx_physical_preview = 0;
  physical_preview_dropped = 0;
  rx_wifi_scan_result = 0;
  tx_wifi_scan_result = 0;
  wifi_scan_result_dropped = 0;
  rx_wifi_status = 0;
  tx_wifi_status = 0;
  wifi_status_dropped = 0;
  last_ping_time_ms = 0;
  last_pong_time_ms = 0;
  rtt = no_rtt;
  invalid_ack_req = 0;
}

pub record PerPacketCounters : Type 0 where
  pub packets_rx : ℕ
  pub crc_errors : ℕ
  pub seq_gaps : ℕ
  pub chunk_errors : ℕ
  pub bad_magic : ℕ
  pub bad_version : ℕ
  pub bad_header : ℕ
  pub decoder_errors : ℕ

abbrev pub no_packets : PerPacketCounters
no_packets = record {
  packets_rx = 0;
  crc_errors = 0;
  seq_gaps = 0;
  chunk_errors = 0;
  bad_magic = 0;
  bad_version = 0;
  bad_header = 0;
  decoder_errors = 0;
}

pub record PendingAck : Type 0 where
  pub seq : ℕ
  pub epoch : ℕ
  pub message : Message
  pub attempts : ℕ
  pub deadline_ms : ℕ

-- The calls of the application's callbacks. The text of a protocol error is left out.
pub data Call : Type 0 where
  on_session_state : SessionState → Call
  on_protocol_error : SessionError → Call
  on_frame : FrameEvent → Call
  on_hello : HelloInfo → Call
  on_ack_request : (type : ℕ) (payload : List ℕ) (ack_seq : ℕ) → Call
  on_ack : (ack_seq status error_code : ℕ) → Call
  on_ack_timeout : (last_seq : ℕ) → Call
  on_error : (error_code : ℕ) (text : List ℕ) → Call
  on_capabilities : CapabilitiesInfo → Call
  on_physical_preview : PhysicalPreviewInfo → List ℕ → Call
  on_wifi_scan_result : WifiScanResultInfo → Call
  on_wifi_status : WifiStatusInfo → Call
  on_other_message : Message → Call

-- The members under `sessionMutex_`.
pub record Session : Type 0 where
  pub state : SessionState
  pub epoch : ℕ
  pub failed : Bool
  pub peer_hello : HelloInfo
  pub pending_ack : Option PendingAck
  pub pending_hello : Option Message
  pub pending_capabilities : Option Message
  pub last_ping_ms : ℕ
  pub connect_ms : ℕ
  pub last_ping_sent_at_ms : ℕ
  pub last_ping_epoch : ℕ
  pub last_single_packet_seq : ℕ
  pub stats : SessionStats

-- All members, the state of the transport, and the calls of the callbacks so far.
pub record Endpoint {ℓ} (S : Type ℓ) : Type ℓ where
  pub session : Session
  pub encoder : Encoder
  pub decoder : StreamDecoder
  pub frames : FrameAssembler
  pub per_packet : PerPacketCounters
  pub last_peer_rx_ms : ℕ
  pub last_decoder_rx_ms : ℕ
  pub last_data_plane_tx_ms : ℕ
  pub in_decoder_callback : Bool
  pub decoder_reset_pending : Bool
  pub link : S
  pub calls : List Call

-- What an endpoint is made with: its configuration, the two sinks (null is `none`), and whether the lock
-- of the sending side is free when `tryTransmit` asks.
pub record Setup {ℓ} (S : Type ℓ) : Type ℓ where
  pub config : EndpointConfig
  pub sink : Option (S → List ℕ → SendStatus × S)
  pub try_sink : Option (S → List ℕ → SendStatus × S)
  pub try_lock : S → Bool × S

abbrev pub init_session : Session
init_session = record {
  state = SessionState.disconnected;
  epoch = 0;
  failed = false;
  peer_hello = no_hello;
  pending_ack = Option.none;
  pending_hello = Option.none;
  pending_capabilities = Option.none;
  last_ping_ms = 0;
  connect_ms = 0;
  last_ping_sent_at_ms = 0;
  last_ping_epoch = 0;
  last_single_packet_seq = 0;
  stats = no_session_stats;
}

abbrev pub init {ℓ} : {S : Type ℓ} → ℕ → S → Endpoint S
init max_payload link = record {
  session = init_session;
  encoder = Encoder.init 0;
  decoder = Decoder.init max_payload;
  frames = FrameAssembler.init;
  per_packet = no_packets;
  last_peer_rx_ms = 0;
  last_decoder_rx_ms = 0;
  last_data_plane_tx_ms = 0;
  in_decoder_callback = false;
  decoder_reset_pending = false;
  link = link;
  calls = [];
}

-- A difference of two readings of the clock.
abbrev pub since : ℕ → ℕ → ℕ
since now then_ms = (now + (2 ^ 64 - then_ms)) % 2 ^ 64

module _ {ℓ} {S : Type ℓ} where
  abbrev pub on_session : (Session → Session) → Endpoint S → Endpoint S
  on_session f e = record e { session = f e.session }

  abbrev pub count : (SessionStats → SessionStats) → Endpoint S → Endpoint S
  count f e = record e { session = record e.session { stats = f e.session.stats } }

  abbrev pub call : Call → Endpoint S → Endpoint S
  call c e = record e { calls = e.calls ++ (c ∷ []) }

  abbrev pub reset_seq : Endpoint S → Endpoint S
  reset_seq e = record e { encoder = record e.encoder { seq = 0 } }

  -- What the frame assembler did, with its callbacks passed on.
  abbrev pub with_frames : Stepped → Endpoint S → Endpoint S
  with_frames (frames, events) e = record e {
    frames = frames;
    calls = e.calls ++ map on_frame events;
  }

  abbrev pub on_frames : (FrameAssembler → Stepped) → Endpoint S → Endpoint S
  on_frames f e = with_frames (f e.frames) e
