-- ===== src/Bus.antt =====
-- The events of the browser's engine.
mod Listeners
mod Client
mod Heard
mod Kept
mod Live
mod Tests
