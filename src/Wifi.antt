-- ===== src/Wifi.antt =====
-- shared/wifi.
pub mod ReconnectPolicy
pub mod ScanTransaction
mod Tests
