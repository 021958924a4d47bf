-- ===== src/Protocol/Message/Tests.antt =====
-- Messages that the builders make at concrete inputs, read by the frame assembler and the parser.
use espview.Base.{ℕ, ◌≡◌, refl, arith, true, false, List, [], ◌∷◌, ◌++◌, some, inl}
use espview.Protocol.MessageType
use espview.Protocol.ByteOrder.{write_u32_le, write_u16_le}
use espview.Protocol.Message.{Message}
use espview.Protocol.Message.Capabilities.{
  CapabilitiesInfo, CapabilitiesController, PhysicalPixelFormat, capabilities_bytes,
  make_capabilities, parse_capabilities,
}
use espview.Protocol.Message.Capabilities.RoundTrip.{parse_capabilities-make_capabilities}
use espview.Protocol.Message.Preview.{
  PhysicalPreviewInfo, preview_bytes, make_physical_preview, parse_physical_preview,
  parse_physical_preview-make_physical_preview,
}
use espview.Base.{take, drop, replicate, length-replicate}
use espview.Protocol.Message.Builders.{make_frame_begin, make_frame_rect, make_frame_end}
use espview.Protocol.Wire.{FrameType, PixelFormat}
use espview.Protocol.FrameAssembler.Built.{
  built-Commits, Commits, rect_events, built, no_more, frame,
}
use espview.Protocol.FrameAssembler.BuiltParts.{info}
use espview.Protocol.FrameAssembler
use espview.Protocol.FrameAssembler.{
  FrameAssembler, RectInfo, on_begin, on_commit, Input, message, stream_error, reset_input, step,
  steps,
}
use espview.Protocol.Wire.{flag_ack_req}
use espview.Protocol.Message.Wifi.{
  WifiScanRecordInfo, push_net_u32, fixed_string, any_bad_record, all_record_bytes,
  make_wifi_config, make_wifi_scan_result, make_wifi_status, parse_wifi_config,
  parse_wifi_scan_result, parse_wifi_status,
}
use espview.Protocol.Message.Wifi.RoundTrip.{
  parse_wifi_config-make_wifi_config, parse_wifi_status-make_wifi_status,
}
use espview.Protocol.Message.Wifi.Scans.{parse_wifi_scan_result-make_wifi_scan_result}

abbrev built_rect : RectInfo
built_rect = record { x = 0; y = 0; w = 1; h = 1 }

abbrev built_pixels : List ℕ
built_pixels = 0xAB ∷ 0xCD ∷ []

abbrev built_begin : Message
built_begin = record {
  type = MessageType.frame_begin;
  flags = 0;
  payload = 7 ∷ 0 ∷ 0 ∷ 0 ∷ 1 ∷ 0 ∷ 1 ∷ 0 ∷ 2 ∷ 0 ∷ 0 ∷ 0 ∷ [];
}

abbrev built_rect_message : Message
built_rect_message = record {
  type = MessageType.frame_rect;
  flags = 0;
  payload = 0 ∷ 0 ∷ 0 ∷ 0 ∷ 1 ∷ 0 ∷ 1 ∷ 0 ∷ built_pixels;
}

make_frame_begin_test :
    make_frame_begin 7 FrameType.full PixelFormat.rgb565 1 1 2 ≡ some built_begin
unfolding make_frame_begin write_u16_le write_u32_le
make_frame_begin_test = refl

make_frame_rect_test : make_frame_rect 0 0 1 1 built_pixels ≡ some built_rect_message
unfolding make_frame_rect write_u16_le
make_frame_rect_test = refl

built-Commits_example :
    Commits
      (on_begin (info 7 FrameType.full 1 1 2)
        ∷ (rect_events ((built_rect, built_pixels) ∷ [])
            ++ (on_commit (frame (info 7 FrameType.full 1 1 2) 1 2) ∷ [])))
      (steps
        (message built_begin
          ∷ message built_rect_message
          ∷ message (make_frame_end 7 1 2 false)
          ∷ [])
        FrameAssembler.init)
built-Commits_example =
    built-Commits 7 FrameType.full 1 1 2 ((built_rect, built_pixels) ∷ []) built_begin
      (message built_rect_message ∷ []) FrameAssembler.init (omega arith) (omega arith)
      make_frame_begin_test
      (built built_rect built_pixels built_rect_message make_frame_rect_test no_more)
      (
        record {
          x = omega arith;
          y = omega arith;
          w = omega arith;
          h = omega arith;
          wide = omega arith;
          high = omega arith;
          right = omega arith;
          bottom = omega arith;
          whole = refl;
          size = omega arith;
        },
        tt,
      )
      (omega arith) (omega arith) (λ e. cc) (inl refl)

abbrev capabilities : CapabilitiesInfo
capabilities = record {
  version = 0;
  virtual_present = true;
  physical_present = true;
  width = 320;
  height = 240;
  pixel_format = PixelFormat.rgb565;
  color_depth = 16;
  virtual_mono = false;
  virtual_can_readback = true;
  mode_mask = 0x0F;
  phys_width = 128;
  phys_height = 64;
  phys_pixel_format = PhysicalPixelFormat.mono1;
  phys_color_depth = 1;
  phys_mono = true;
  phys_can_readback = false;
  phys_controller = CapabilitiesController.sh1106;
  phys_i2c_address = 0x3C;
  scene_support = 0x03;
}

abbrev capabilities_message : Message
capabilities_message = record {
  type = MessageType.capabilities;
  flags = 0;
  payload =
      1 ∷ 3 ∷ 0x40 ∷ 1 ∷ 0xF0 ∷ 0 ∷ 0 ∷ 16 ∷ 0 ∷ 1 ∷ 0x0F ∷ 0 ∷ 0 ∷ 0 ∷ 0 ∷ 0 ∷ 128 ∷ 0 ∷ 64 ∷ 0 ∷ 1
      ∷ 1 ∷ 1 ∷ 0 ∷ 2 ∷ 0x3C ∷ 3 ∷ 0 ∷ 0 ∷ 0 ∷ 0 ∷ 0 ∷ [];
}

make_capabilities_test : make_capabilities capabilities ≡ some capabilities_message
unfolding make_capabilities capabilities_bytes write_u16_le
make_capabilities_test = refl

parse_capabilities-make_capabilities_example :
    parse_capabilities (capabilities_message.payload ++ (9 ∷ []))
    ≡ some (record capabilities { version = 1 })
parse_capabilities-make_capabilities_example =
    parse_capabilities-make_capabilities capabilities capabilities_message (9 ∷ [])
      make_capabilities_test

abbrev preview : PhysicalPreviewInfo
preview = record {
  frame_id = 5;
  width = 128;
  height = 64;
  pixel_format = PhysicalPixelFormat.mono1;
  flags = 1;
}

abbrev preview_pixels : List ℕ
preview_pixels = replicate 1024 0xA5

abbrev preview_message : Message
preview_message = record {
  type = MessageType.physical_preview;
  flags = 0;
  payload = 5 ∷ 0 ∷ 128 ∷ 0 ∷ 64 ∷ 0 ∷ 1 ∷ 1 ∷ preview_pixels;
}

make_physical_preview_test :
    make_physical_preview preview (some preview_pixels) ≡ some preview_message
unfolding make_physical_preview preview_bytes write_u16_le
make_physical_preview_test = refl

parse_physical_preview-make_physical_preview_example :
    (drop 8 preview_message.payload ≡ take 1024 preview_pixels)
    × (parse_physical_preview (preview_message.payload ++ (7 ∷ [])) ≡ some preview)
parse_physical_preview-make_physical_preview_example =
    parse_physical_preview-make_physical_preview preview preview_pixels preview_message (7 ∷ [])
      (omega arith) (omega (arith, length-replicate {A = ℕ} 1024 0xA5)) make_physical_preview_test

abbrev home : List ℕ
home = 104 ∷ 111 ∷ 109 ∷ 101 ∷ []

abbrev secret : List ℕ
secret = 115 ∷ 101 ∷ 99 ∷ 114 ∷ 101 ∷ 116 ∷ 33 ∷ 33 ∷ []

-- 192.168.1.20
abbrev server : ℕ
server = 0xC0A80114

abbrev config_message : Message
config_message = record {
  type = MessageType.wifi_config;
  flags = flag_ack_req;
  payload =
      0
      ∷ (home
          ++ (replicate 28 0
              ++ (secret ++ (replicate 56 0 ++ (192 ∷ 168 ∷ 1 ∷ 20 ∷ 0x88 ∷ 0x13 ∷ [])))));
}

make_wifi_config_test : make_wifi_config home secret server 5000 ≡ some config_message
unfolding make_wifi_config push_net_u32 fixed_string write_u16_le
make_wifi_config_test = refl

parse_wifi_config-make_wifi_config_example :
    parse_wifi_config (config_message.payload ++ (9 ∷ []))
    ≡ some (record {
      flags = 0;
      ssid = home;
      password = secret;
      server_ip = server;
      server_port = 5000;
    })
parse_wifi_config-make_wifi_config_example =
    parse_wifi_config-make_wifi_config home secret server 5000 config_message (9 ∷ [])
      make_wifi_config_test (ground arith) (ground arith) (omega arith) (omega arith)

abbrev access_points : List WifiScanRecordInfo
access_points =
    record {
      ssid = home;
      bssid = 1 ∷ 2 ∷ 3 ∷ 4 ∷ 5 ∷ 6 ∷ [];
      rssi = 200;
      channel = 6;
      authmode = 3;
    }
    ∷ record {
      ssid = secret;
      bssid = 6 ∷ 5 ∷ 4 ∷ 3 ∷ 2 ∷ 1 ∷ [];
      rssi = 180;
      channel = 11;
      authmode = 0;
    }
    ∷ []

abbrev scan_message : Message
scan_message = record {
  type = MessageType.wifi_scan_result;
  flags = 0;
  payload =
      7
      ∷ 2
      ∷ 1
      ∷ 3
      ∷ 0
      ∷ (home
          ++ (replicate 28 0
              ++ (1
                  ∷ 2
                  ∷ 3
                  ∷ 4
                  ∷ 5
                  ∷ 6
                  ∷ 200
                  ∷ 6
                  ∷ 3
                  ∷ 0
                  ∷ (secret
                      ++ (replicate 24 0 ++ (6 ∷ 5 ∷ 4 ∷ 3 ∷ 2 ∷ 1 ∷ 180 ∷ 11 ∷ 0 ∷ 0 ∷ []))))));
}

make_wifi_scan_result_test : make_wifi_scan_result 7 true 3 access_points ≡ some scan_message
unfolding make_wifi_scan_result any_bad_record all_record_bytes fixed_string write_u16_le
make_wifi_scan_result_test = refl

parse_wifi_scan_result-make_wifi_scan_result_example :
    parse_wifi_scan_result (scan_message.payload ++ (9 ∷ []))
    ≡ some (record { scan_seq = 7; count = 2; flags = 1; total = 3; records = access_points })
parse_wifi_scan_result-make_wifi_scan_result_example =
    parse_wifi_scan_result-make_wifi_scan_result 7 3 true access_points scan_message (9 ∷ [])
      make_wifi_scan_result_test
      (
        record { ssid = ground arith; bssid = refl },
        (record { ssid = ground arith; bssid = refl }, ground arith),
      )
      (omega arith)

abbrev status_message : Message
status_message = record {
  type = MessageType.wifi_status;
  flags = 0;
  payload =
      5 ∷ 2 ∷ 1 ∷ 0 ∷ 200 ∷ 6 ∷ 192 ∷ 168 ∷ 1 ∷ 20 ∷ 192 ∷ 168 ∷ 1 ∷ 20 ∷ 0x88 ∷ 0x13 ∷ 4 ∷ home;
}

make_wifi_status_test :
    make_wifi_status 5 0x0102 0 200 6 server server 5000 home ≡ some status_message
unfolding make_wifi_status push_net_u32 write_u16_le
make_wifi_status_test = refl

parse_wifi_status-make_wifi_status_example :
    parse_wifi_status (status_message.payload ++ (9 ∷ []))
    ≡ some (record {
      phase = 5;
      error_code = 0x0102;
      flags = 0;
      rssi = 200;
      channel = 6;
      ip = server;
      server_ip = server;
      server_port = 5000;
      ssid_len = 4;
      ssid = home;
    })
parse_wifi_status-make_wifi_status_example =
    parse_wifi_status-make_wifi_status 5 0x0102 0 200 6 server server 5000 home status_message
      (9 ∷ []) make_wifi_status_test (omega arith) (omega arith) (omega arith) (omega arith)
