-- ===== src/Protocol.antt =====
-- shared/protocol: the wire format, from bytes to frames.
pub mod Wire
pub mod MessageType
pub mod Crc32
pub mod ByteOrder
pub mod Packet
pub mod Message
pub mod Encoder
pub mod Decoder
pub mod FrameAssembler
pub mod RuntimeStats
pub mod Endpoint
mod Tests
