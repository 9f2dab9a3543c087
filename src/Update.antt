-- ===== src/Update.antt =====
-- internal/update/update.go: which release is newer, and the download of a file of a release.
pub mod Version
pub mod Tag
pub mod Fetch
