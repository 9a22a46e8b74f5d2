-- ===== src/Sender.antt =====
-- Sending: frontend/src/store/sender-store.ts and frontend/src/hooks/useSender.ts.
pub mod Store
pub mod Hook
pub mod Events
pub mod Controls
pub mod Machine
pub mod Invites
mod Unstuck
mod InviteTests
pub mod Selection
pub mod Stopping
pub mod Transfers
mod Tests
