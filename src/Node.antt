-- ===== src/Node.antt =====
-- The pairing node of the device.
pub mod Status
pub mod Machine
mod Waiting
mod Ending
mod Tests
