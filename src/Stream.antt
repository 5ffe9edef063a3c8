-- ===== src/Stream.antt =====
-- The framed stream between an agent and the hub.
pub mod Queue
pub mod Throttle
