-- ===== src/Relay.antt =====
-- internal/relay/relay.go: a device as a client of its server.
pub mod Address
pub mod Call
pub mod Client
pub mod Backoff
