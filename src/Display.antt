-- ===== src/Display.antt =====
-- shared/display.
pub mod Router
mod Tests
