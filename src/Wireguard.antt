-- ===== src/Wireguard.antt =====
-- crates/tsnode/src/wireguard.rs: the WireGuard tunnel of one peer.
pub mod Replay
pub mod Tunnel
pub mod Handshake
pub mod Transport
