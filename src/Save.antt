-- ===== src/Save.antt =====
-- Saving received files in the browser.
pub mod Names
pub mod Resolve
pub mod Folder
pub mod Kept
pub mod Location
pub mod Received
pub mod Tests
