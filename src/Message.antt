-- ===== src/Message.antt =====
-- src/message_stream.rs: message streams over a byte stream.
pub mod SlideBuffer
pub mod UotAddress
pub mod PacketAddr
pub mod Vless
