-- ===== src/Server.antt =====
-- internal/server: accounts, invites and sessions, the limit on failed logins, the hub and the
-- handlers of the HTTP API.
pub mod Store
pub mod Limiter
pub mod Hub
pub mod Api
