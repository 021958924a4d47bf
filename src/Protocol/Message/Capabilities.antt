-- ===== src/Protocol/Message/Capabilities.antt =====
-- shared/protocol/message.h and message.cpp: the CAPABILITIES message. The builder takes its arguments
-- as the parser's record, whose version it does not read. The numbers and the enumerations are in the
-- range of their types, so that the builder's tests of its enumerations pass.
pub mod RoundTrip
use espview.Base.{
  ℕ, ◌<◌, Bool, true, false, ◌||◌, List, [], ◌∷◌, ◌++◌, Option, none, some, ltb, ◌==◌, ◌!=◌,
  if◌then◌else◌, length, drop, get_or, bit_and, bit_or,
}
use espview.Protocol.Wire.{PixelFormat, pixel_format_code, capabilities_payload_version}
use espview.Protocol.MessageType
use espview.Protocol.ByteOrder.{read_u16_le, write_u16_le}
use espview.Protocol.Message.{Message, make_message}
use espview.Protocol.Message.Builders.{out_of_geometry}

abbrev pub capabilities_payload_size : ℕ
capabilities_payload_size = 32

pub data CapabilitiesController : Type 0 where
  auto : CapabilitiesController
  ssd1306 : CapabilitiesController
  sh1106 : CapabilitiesController
  unknown : CapabilitiesController

abbrev pub controller_code : CapabilitiesController → ℕ
controller_code CapabilitiesController.auto = 0
controller_code CapabilitiesController.ssd1306 = 1
controller_code CapabilitiesController.sh1106 = 2
controller_code CapabilitiesController.unknown = 0xFF

pub data PhysicalPixelFormat : Type 0 where
  rgb565 : PhysicalPixelFormat
  mono1 : PhysicalPixelFormat

abbrev pub physical_pixel_format_code : PhysicalPixelFormat → ℕ
physical_pixel_format_code PhysicalPixelFormat.rgb565 = 0
physical_pixel_format_code PhysicalPixelFormat.mono1 = 1

pub record CapabilitiesInfo : Type 0 where
  pub version : ℕ
  pub virtual_present : Bool
  pub physical_present : Bool
  pub width : ℕ
  pub height : ℕ
  pub pixel_format : PixelFormat
  pub color_depth : ℕ
  pub virtual_mono : Bool
  pub virtual_can_readback : Bool
  pub mode_mask : ℕ
  pub phys_width : ℕ
  pub phys_height : ℕ
  pub phys_pixel_format : PhysicalPixelFormat
  pub phys_color_depth : ℕ
  pub phys_mono : Bool
  pub phys_can_readback : Bool
  pub phys_controller : CapabilitiesController
  pub phys_i2c_address : ℕ
  pub scene_support : ℕ

-- The 32 bytes of the payload.
unfoldable pub capabilities_bytes : CapabilitiesInfo → List ℕ
capabilities_bytes i =
    capabilities_payload_version
    ∷ bit_or (if i.virtual_present then 0x01 else 0) (if i.physical_present then 0x02 else 0)
    ∷ (write_u16_le i.width
        ++ (write_u16_le i.height
            ++ (pixel_format_code i.pixel_format
                ∷ i.color_depth
                ∷ (if i.virtual_mono then 1 else 0)
                ∷ (if i.virtual_can_readback then 1 else 0)
                ∷ i.mode_mask
                ∷ 0
                ∷ 0
                ∷ 0
                ∷ 0
                ∷ 0
                ∷ (write_u16_le i.phys_width
                    ++ (write_u16_le i.phys_height
                        ++ (physical_pixel_format_code i.phys_pixel_format
                            ∷ i.phys_color_depth
                            ∷ (if i.phys_mono then 1 else 0)
                            ∷ (if i.phys_can_readback then 1 else 0)
                            ∷ controller_code i.phys_controller
                            ∷ i.phys_i2c_address
                            ∷ i.scene_support
                            ∷ 0
                            ∷ 0
                            ∷ 0
                            ∷ 0
                            ∷ 0
                            ∷ []))))))

unfoldable pub make_capabilities : CapabilitiesInfo → Option Message
make_capabilities i =
    if out_of_geometry i.width || out_of_geometry i.height
    then none
    else if ltb 4096 i.phys_width || ltb 4096 i.phys_height
    then none
    else if bit_and i.mode_mask 0xF0 != 0 || bit_and i.scene_support 0xFC != 0
    then none
    else some (make_message MessageType.capabilities 0 (capabilities_bytes i))

abbrev pub parse_controller : ℕ → CapabilitiesController
parse_controller c =
    if c == 0
    then CapabilitiesController.auto
    else if c == 1
    then CapabilitiesController.ssd1306
    else if c == 2
    then CapabilitiesController.sh1106
    else CapabilitiesController.unknown

abbrev pub parse_physical_pixel_format : ℕ → PhysicalPixelFormat
parse_physical_pixel_format c =
    if c == 1 then PhysicalPixelFormat.mono1 else PhysicalPixelFormat.rgb565

unfoldable pub capabilities_fields : List ℕ → CapabilitiesInfo
capabilities_fields p = record {
  version = get_or p 0 0;
  virtual_present = bit_and (get_or p 1 0) 0x01 != 0;
  physical_present = bit_and (get_or p 1 0) 0x02 != 0;
  width = read_u16_le (drop 2 p);
  height = read_u16_le (drop 4 p);
  pixel_format = PixelFormat.rgb565;
  color_depth = get_or p 7 0;
  virtual_mono = get_or p 8 0 != 0;
  virtual_can_readback = get_or p 9 0 != 0;
  mode_mask = get_or p 10 0;
  phys_width = read_u16_le (drop 16 p);
  phys_height = read_u16_le (drop 18 p);
  phys_pixel_format = parse_physical_pixel_format (get_or p 20 0);
  phys_color_depth = get_or p 21 0;
  phys_mono = get_or p 22 0 != 0;
  phys_can_readback = get_or p 23 0 != 0;
  phys_controller = parse_controller (get_or p 24 0);
  phys_i2c_address = get_or p 25 0;
  scene_support = get_or p 26 0;
}

unfoldable pub parse_capabilities : List ℕ → Option CapabilitiesInfo
parse_capabilities payload =
    if ltb (length payload) capabilities_payload_size
    then none
    else if get_or payload 0 0 != capabilities_payload_version
    then none
    else some (capabilities_fields payload)
