-- ===== src/Protocol/MessageType.antt =====
-- shared/protocol/protocol.h: `enum class MessageType`, the values of the type byte.
use espview.Base.{ℕ}

abbrev pub hello : ℕ
hello = 0x01

abbrev pub capabilities : ℕ
capabilities = 0x02

abbrev pub set_mode : ℕ
set_mode = 0x03

abbrev pub set_resolution : ℕ
set_resolution = 0x04

abbrev pub set_pixel_format : ℕ
set_pixel_format = 0x05

abbrev pub wifi_scan_req : ℕ
wifi_scan_req = 0x06

abbrev pub wifi_scan_result : ℕ
wifi_scan_result = 0x07

abbrev pub wifi_config : ℕ
wifi_config = 0x08

abbrev pub wifi_status : ℕ
wifi_status = 0x09

abbrev pub frame_begin : ℕ
frame_begin = 0x10

abbrev pub frame_rect : ℕ
frame_rect = 0x11

abbrev pub frame_end : ℕ
frame_end = 0x12

abbrev pub physical_preview : ℕ
physical_preview = 0x13

abbrev pub input_key : ℕ
input_key = 0x20

abbrev pub input_mouse : ℕ
input_mouse = 0x21

abbrev pub input_touch : ℕ
input_touch = 0x22

abbrev pub ping : ℕ
ping = 0x30

abbrev pub pong : ℕ
pong = 0x31

abbrev pub reset : ℕ
reset = 0x40

abbrev pub error : ℕ
error = 0x50

abbrev pub ack : ℕ
ack = 0x51
