-- ===== src/Web.antt =====
-- The selection of files in the browser.
pub mod Files
pub mod Entries
pub mod Drop
pub mod Dropped
pub mod Refined
pub mod Inside
pub mod Reading
pub mod Send
pub mod Sent
pub mod Chosen
pub mod Registered
pub mod Tests
pub mod Metadata
mod Preview
mod Told
mod Previewed
