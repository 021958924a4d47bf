-- ===== src/Oled.antt =====
-- shared/oled.
pub mod ReinitPolicy
mod Tests
