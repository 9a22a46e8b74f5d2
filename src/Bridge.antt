-- ===== src/Bridge.antt =====
-- The browser's calls of the engine.
mod Engine
mod Stub
mod Invoke
mod Picking
mod Receiving
mod Sharing
mod Sizes
mod Tests
