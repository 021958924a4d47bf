-- ===== src/Input.antt =====
-- shared/input.
pub mod Event
pub mod Codec
pub mod CoordinateMapper
pub mod HostKey
pub mod KeyboardMapper
pub mod Manager
pub mod Policy
mod Tests
