-- ===== src/Release.antt =====
-- The notes of a release.
mod Patterns
mod Lines
mod Commits
mod Grouping
mod Sections
mod Work
mod Contributors
mod Notes
mod Partition
mod Summaries
mod Highlights
mod Normalized
mod Loaded
mod Inherited
mod Scanned
mod Logins
mod Credited
mod LoadTests
mod Tests
