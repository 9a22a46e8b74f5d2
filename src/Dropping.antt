-- ===== src/Dropping.antt =====
-- The selection by dragging, by the dialogs, and by Android's copies and shares.
mod State
mod Machine
mod Consistent
mod Shares
mod Tests
