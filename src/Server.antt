-- ===== src/Server.antt =====
-- pkg/server: the loops of the server.
pub mod Enforcer
pub mod Enforcement
