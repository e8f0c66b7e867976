-- ===== src/Hysteria2.antt =====
-- src/hysteria2.rs: the server of the protocol Hysteria2, its variable-length integers and its datagrams.
pub mod Varint
pub mod Fragments
pub mod Datagrams
pub mod Header
