-- ===== src/Anytls.antt =====
-- src/anytls: the AnyTLS protocol.
pub mod Types
pub mod StringMap
pub mod Stream
pub mod Session
pub mod Padding
pub mod Server
