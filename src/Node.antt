-- ===== src/Node.antt =====
-- internal/node: the sync of one clipboard over a set of links.
pub mod History
pub mod State
pub mod Clips
pub mod Files
