-- ===== src/Lib.antt =====
-- A model of rust_proxy, a proxy server that speaks AnyTLS and Hysteria2, with the theorems that make its
-- core correct. A client's connection is authenticated, its streams are split out of it (AnyTLS frames,
-- QUIC streams or datagrams), and each is copied to its destination and back; datagrams that travel in a
-- byte stream are framed by the streams of messages.
--
-- Which file models what:
--   Prelude: shared tests, lists, bytes and results; Prelude/Io: what the transports below answer. Each call
--     of a transport takes the next answer of a list, so a theorem for all lists holds whatever a
--     transport does. Where a list of arrivals ends the call is pending.
--   Utf8: the check of str::from_utf8. Text, Decimal: what is used of str and of printed numbers.
--   Address: src/address.rs (Address, NetLocation), and Address/Parse its parsers and printing.
--   Message/SlideBuffer, Message/UotAddress, Message/PacketAddr, Message/Vless: src/message_stream.rs,
--     with the poll functions of AsyncReadTargetedMessage, AsyncWriteSourcedMessage and the like under
--     their own names.
--   Reader: src/stream_reader.rs (StreamReader).
--   Copy: src/copy_bidirectional.rs (CopyBuffer::poll_copy), with transfer_one_direction in Copy/Transfer
--     and CopyBidirectional::poll in Copy/Bidirectional.
--   Relay: src/udp_relay.rs (CopyBuffer::poll_copy of messages), and Relay/Bidirectional its
--     transfer_one_direction and CopyBidirectional::poll with the timeout of an association; Relay/Routing a
--     turn of run_udp_routing.
--   Anytls/Types, Anytls/StringMap: src/anytls/types.rs (Command, Frame, FrameCodec; StringMap).
--   Anytls/Padding: src/anytls/padding.rs (PaddingFactory).
--   Anytls/Stream: src/anytls/stream.rs (AnyTlsStream). Its channels are lists of answers.
--   Anytls/Session: src/anytls/session.rs. Wire is what is written (write_frame, write_with_padding),
--     Receive what is handled (handle_frame, process_outgoing, close, send_synack), Loop recv_loop and run,
--     Forward read_location_direct, handle_new_stream and the answer to a stream.
--   Anytls/Server: src/anytls/server.rs (handle_connection, up to the session or the fallback).
--   Hysteria2/Varint, Hysteria2/Fragments: src/hysteria2.rs (encode_varint, the fragments of a payload in
--     run_udp_remote_to_local_loop, and their reassembly in run_udp_local_to_remote_loop).
--     Hysteria2/Datagrams: a turn of that loop, with its datagrams and sessions. Hysteria2/Header:
--     read_varint and handle_tcp_header.
--   Resolver: src/resolver.rs (Resolver::resolve, lookup_host).
--   Tests: the theorems at concrete inputs.
-- Below a component, files such as Read, Write, Waiting, Laws or Codec hold its theorems.
--
-- A poll function is a function of the state and of the answers to come, and gives its result, the state
-- and the answers left. A loop is a turn that says whether it goes on, run on fuel: the size of the
-- buffer and a small number, which is enough since a turn that goes on fills or empties at least a byte;
-- each such theorem says that the function returns. Integers are natural numbers with the
-- wrap-around written out. A panic is a result. Memory that is not initialised is an argument.
--
-- Not modelled: sockets, TLS, QUIC and HTTP/3, DNS, tasks and locks (a handler of a session runs without
-- another one in between), the bound of 16 messages of a stream's channel (a send that would wait for room is
-- taken at once), the part of a control frame that a write sends before its time is over, the shutdown of the
-- writer of a closed session, a writer that accepts no byte for ever, logging, configuration and the command line. A digest, a random
-- draw, the parsing of an Ipv6Addr, String::from_utf8_lossy, the LRU caches and the answers of a resolver are
-- arguments.
pub mod Prelude
pub mod Utf8
pub mod Decimal
pub mod Address
pub mod Anytls
pub mod Message
pub mod Reader
pub mod Copy
pub mod Hysteria2
pub mod Relay
pub mod Resolver
pub mod Tests
pub mod Text
