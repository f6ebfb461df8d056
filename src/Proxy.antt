-- ===== src/Proxy.antt =====
-- Proxy of internal/proxy/proxy.go: its state, the cleanup of sessions, and what a packet does.
pub mod State
pub mod Oldest
pub mod Packet
pub mod Cleanup
