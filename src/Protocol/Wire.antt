-- ===== src/Protocol/Wire.antt =====
-- shared/protocol/protocol.h: the constants and the enumerations of the wire.
use espview.Base.{ℕ}

abbrev pub Magic : Type 0
Magic = ℕ × ℕ × ℕ × ℕ

-- 'E' 'S' 'P' 'V'
abbrev pub protocol_magic : Magic
protocol_magic = (0x45, 0x53, 0x50, 0x56)

abbrev pub protocol_version : ℕ
protocol_version = 0x01

abbrev pub max_packet_payload : ℕ
max_packet_payload = 4096

abbrev pub capabilities_payload_version : ℕ
capabilities_payload_version = 0x01

abbrev pub max_message_payload : ℕ
max_message_payload = 1048576

abbrev pub flag_chunked : ℕ
flag_chunked = 0x01

abbrev pub flag_ack_req : ℕ
flag_ack_req = 0x02

-- `~kFlagChunked`, cut to the width of the flags.
abbrev pub not_flag_chunked : ℕ
not_flag_chunked = 0xFE

abbrev pub min_message_type : ℕ
min_message_type = 0x01

abbrev pub max_message_type : ℕ
max_message_type = 0x51

pub data PixelFormat : Type 0 where
  rgb565 : PixelFormat

pub data FrameType : Type 0 where
  full partial : FrameType

abbrev pub frame_end_flag_aborted : ℕ
frame_end_flag_aborted = 0x01

pub data DisplayMode : Type 0 where
  window device mirror split : DisplayMode

pub data ErrorCode : Type 0 where
  none unsupported_mode invalid_param busy internal scan_failed auth_failed : ErrorCode
  ap_not_found dhcp_timeout not_configured server_unreachable storage_error : ErrorCode
  api_error : ErrorCode

pub data WifiStatusPhase : Type 0 where
  idle scanning config_applying wifi_connecting wifi_connected got_ip : WifiStatusPhase
  tcp_connecting tcp_connected error cleared : WifiStatusPhase

-- The casts of the enumerations to the integers beneath.
abbrev pub pixel_format_code : PixelFormat → ℕ
pixel_format_code PixelFormat.rgb565 = 0

abbrev pub frame_type_code : FrameType → ℕ
frame_type_code FrameType.full = 0
frame_type_code FrameType.partial = 1

abbrev pub display_mode_code : DisplayMode → ℕ
display_mode_code DisplayMode.window = 0
display_mode_code DisplayMode.device = 1
display_mode_code DisplayMode.mirror = 2
display_mode_code DisplayMode.split = 3

abbrev pub error_code : ErrorCode → ℕ
error_code ErrorCode.none = 0
error_code ErrorCode.unsupported_mode = 1
error_code ErrorCode.invalid_param = 2
error_code ErrorCode.busy = 3
error_code ErrorCode.internal = 4
error_code ErrorCode.scan_failed = 5
error_code ErrorCode.auth_failed = 6
error_code ErrorCode.ap_not_found = 7
error_code ErrorCode.dhcp_timeout = 8
error_code ErrorCode.not_configured = 9
error_code ErrorCode.server_unreachable = 10
error_code ErrorCode.storage_error = 11
error_code ErrorCode.api_error = 12

abbrev pub wifi_status_phase_code : WifiStatusPhase → ℕ
wifi_status_phase_code WifiStatusPhase.idle = 0
wifi_status_phase_code WifiStatusPhase.scanning = 1
wifi_status_phase_code WifiStatusPhase.config_applying = 2
wifi_status_phase_code WifiStatusPhase.wifi_connecting = 3
wifi_status_phase_code WifiStatusPhase.wifi_connected = 4
wifi_status_phase_code WifiStatusPhase.got_ip = 5
wifi_status_phase_code WifiStatusPhase.tcp_connecting = 6
wifi_status_phase_code WifiStatusPhase.tcp_connected = 7
wifi_status_phase_code WifiStatusPhase.error = 8
wifi_status_phase_code WifiStatusPhase.cleared = 9
