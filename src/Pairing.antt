-- ===== src/Pairing.antt =====
-- The paired devices.
pub mod Devices
mod Labels
mod Order
mod Presence
mod Hook
mod Machine
mod Coherent
mod Countdown
mod Tests
