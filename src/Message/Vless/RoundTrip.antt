-- ===== src/Message/Vless/RoundTrip.antt =====
-- src/message_stream.rs, VlessMessageStream: what one side writes, the other reads.
