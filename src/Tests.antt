-- ===== src/Tests.antt =====
-- Concrete runs of the model, and each theorem with hypotheses at an input that meets them.
mod Cipher
mod Seal
mod Clips
mod Accounts
mod Hub
mod Codes
mod Files
mod Api
mod Handshake
mod Links
mod Images
mod Programs
mod Names
mod Updates
mod Peers
