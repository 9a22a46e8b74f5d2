-- ===== src/Relay.antt =====
-- The relays: their configuration and the page of their settings.
mod Config
mod Settings
mod Regions
mod Secure
mod Tests
mod Editing
mod Sanitized
