-- ===== src/Files.antt =====
-- internal/files: files that arrive, saved in a folder.
pub mod Name
pub mod Safe
pub mod Folder
pub mod Saved
pub mod Received
