-- ===== src/Protocol/Message/Capabilities/RoundTrip.antt =====
-- shared/protocol/message.cpp: `parseCapabilities` on what `makeCapabilities` writes.
use espview.Base.{
  ℕ, ◌+◌, ◌^◌, ◌<◌, ◌≤◌, ◌≡◌, refl, arith, Bool, true, false, List, ◌++◌, some, ◌!=◌, if◌then◌else◌,
  length, get_or, bit_and, bit_or, not_lt→ltb,
}
use espview.Protocol.Wire.{PixelFormat, capabilities_payload_version}
use espview.Protocol.ByteOrder.{write_u16_le}
use espview.Protocol.ByteOrder.RoundTrip.{read_u16_le-write_u16_le}
use espview.Protocol.Message.{Message}
use espview.Protocol.Message.Capabilities.{
  CapabilitiesController, controller_code, PhysicalPixelFormat, physical_pixel_format_code,
  CapabilitiesInfo, capabilities_bytes, make_capabilities, parse_controller,
  parse_physical_pixel_format, capabilities_fields, parse_capabilities,
}

flag_read : (b : Bool) → ((if b then 1 else 0) != 0) ≡ b
flag_read true = refl
flag_read false = refl

virtual_read :
    (v p : Bool) → (bit_and (bit_or (if v then 0x01 else 0) (if p then 0x02 else 0)) 0x01 != 0) ≡ v
virtual_read true true = refl
virtual_read true false = refl
virtual_read false true = refl
virtual_read false false = refl

physical_read :
    (v p : Bool) → (bit_and (bit_or (if v then 0x01 else 0) (if p then 0x02 else 0)) 0x02 != 0) ≡ p
physical_read true true = refl
physical_read true false = refl
physical_read false true = refl
physical_read false false = refl

controller_read : (c : CapabilitiesController) → parse_controller (controller_code c) ≡ c
controller_read CapabilitiesController.auto = refl
controller_read CapabilitiesController.ssd1306 = refl
controller_read CapabilitiesController.sh1106 = refl
controller_read CapabilitiesController.unknown = refl

format_read :
    (f : PhysicalPixelFormat) → parse_physical_pixel_format (physical_pixel_format_code f) ≡ f
format_read PhysicalPixelFormat.rgb565 = refl
format_read PhysicalPixelFormat.mono1 = refl

only_format : (f : PixelFormat) → PixelFormat.rgb565 ≡ f
only_format PixelFormat.rgb565 = refl

-- The geometry that the builder lets through.
geometry :
    (i : CapabilitiesInfo) (m : Message)
    → make_capabilities i ≡ some m
    → ((i.width ≤ 4096) × (i.height ≤ 4096)) × ((i.phys_width ≤ 4096) × (i.phys_height ≤ 4096))
unfolding make_capabilities
geometry i m e = ground arith

made :
    (i : CapabilitiesInfo) (m : Message)
    → make_capabilities i ≡ some m
    → m.payload ≡ capabilities_bytes i
unfolding make_capabilities
made i m e = ground arith

fields_read :
    (i : CapabilitiesInfo) (rest : List ℕ)
    → i.width < 2 ^ 16
    → i.height < 2 ^ 16
    → i.phys_width < 2 ^ 16
    → i.phys_height < 2 ^ 16
    → capabilities_fields (capabilities_bytes i ++ rest)
      ≡ record i { version = capabilities_payload_version }
unfolding capabilities_fields capabilities_bytes write_u16_le
fields_read i rest hw hh pw ph =
    rw
      (
        read_u16_le-write_u16_le i.width _ hw,
        read_u16_le-write_u16_le i.height _ hh,
        read_u16_le-write_u16_le i.phys_width _ pw,
        read_u16_le-write_u16_le i.phys_height _ ph,
        virtual_read i.virtual_present i.physical_present,
        physical_read i.virtual_present i.physical_present,
        flag_read i.virtual_mono,
        flag_read i.virtual_can_readback,
        flag_read i.phys_mono,
        flag_read i.phys_can_readback,
        controller_read i.phys_controller,
        format_read i.phys_pixel_format,
        only_format i.pixel_format,
      )
      refl

length_bytes :
    (i : CapabilitiesInfo) (rest : List ℕ)
    → length (capabilities_bytes i ++ rest) ≡ 32 + length rest
unfolding capabilities_bytes write_u16_le
length_bytes i rest = omega arith

version_read :
    (i : CapabilitiesInfo) (rest : List ℕ) → get_or (capabilities_bytes i ++ rest) 0 0 ≡ 1
unfolding capabilities_bytes
version_read i rest = refl

-- Of every message that `makeCapabilities` builds, whatever bytes follow its payload, and whatever the
-- values of its fields: `parseCapabilities` gives back all the arguments, with the version 1.
pub parse_capabilities-make_capabilities :
    (i : CapabilitiesInfo) (m : Message) (rest : List ℕ)
    → make_capabilities i ≡ some m
    → parse_capabilities (m.payload ++ rest)
      ≡ some (record i { version = capabilities_payload_version })
unfolding parse_capabilities
parse_capabilities-make_capabilities i m rest e =
    let ((w, h), (pw, ph)) = geometry i m e in
    let fields = fields_read i rest (omega arith) (omega arith) (omega arith) (omega arith) in
    rw
      (
        made i m e,
        version_read i rest,
        fields,
        not_lt→ltb (length (capabilities_bytes i ++ rest)) 32 (omega (arith, length_bytes i rest)),
      )
      refl
