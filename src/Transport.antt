-- ===== src/Transport.antt =====
-- shared/transport.
pub mod BoundedQueue
mod Tests
