-- ===== src/Tests.antt =====
-- Runs of the model on concrete packets, and the theorems at these packets.
mod Quic
mod Relay
mod Tables
mod Handlers
mod Proxy
mod Parts
mod Crypto
mod Context
mod Main
mod Server
