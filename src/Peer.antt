-- ===== src/Peer.antt =====
-- internal/peer/peer.go: the links of a device to the others of its group, without a server.
pub mod Manager
pub mod Address
pub mod Dial
pub mod Exchange
pub mod Targets
pub mod Spread
pub mod Run
pub mod Links
