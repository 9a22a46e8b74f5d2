-- ===== src/Zip.antt =====
-- The ZIP archives that the browser downloads.
mod Bytes
mod Headers
pub mod Archive
pub mod Reader
mod Layout
mod Fields
mod Written
pub mod RoundTrip
mod Tests
