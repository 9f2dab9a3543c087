-- ===== src/Desktop.antt =====
-- cmd/voidbridge: the parts of the desktop app that keep state of their own.
pub mod Transfers
