-- ===== src/Receiver.antt =====
-- Receiving: frontend/src/hooks/useReceiver.ts.
pub mod Paths
pub mod State
pub mod Events
pub mod Controls
pub mod Machine
pub mod Preview
pub mod Sequence
pub mod Resetting
mod Tests
