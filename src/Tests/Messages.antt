-- ===== src/Tests/Messages.antt =====
-- src/message_stream.rs: the theorems at concrete inputs.
use rust_proxy.Prelude.{
  ℕ, ◌+◌, ◌≤◌, ◌≡◌, at_hand, refl, false, some, List, [], ◌∷◌, ◌++◌, arith, length, replicate,
  length-replicate, slice, Arrival, not_yet, arrives, busy, takes, Sink, ok, ready,
}
use rust_proxy.Message.SlideBuffer.{as_slice}
use rust_proxy.Address.{NetLocation, SocketAddr, v4, to_location}
use rust_proxy.Message.UotAddress.{
  parse_uot_address, write_uot_address, parse_uot_address-write_uot_address,
}
use rust_proxy.Message.PacketAddr as PacketAddr
use rust_proxy.Message.PacketAddr.Read as PacketRead
use rust_proxy.Message.PacketAddr.Delivery as PacketDelivery
use rust_proxy.Message.PacketAddr.Write as PacketWrite
use rust_proxy.Message.Vless as Vless
use rust_proxy.Message.Vless.Read as VlessRead
use rust_proxy.Message.Vless.Delivery as VlessDelivery
use rust_proxy.Message.Vless.Write as VlessWrite

abbrev peer : SocketAddr
peer = v4 (127 ∷ 0 ∷ 0 ∷ 1 ∷ []) 8080

-- Half a packet in a buffer of sixteen bytes, and the other half to come in two pieces.
abbrev packets : PacketAddr.PacketAddrStream
packets = record {
  read_buf = record { bytes = 0 ∷ 127 ∷ 0 ∷ 0 ∷ 1 ∷ replicate 11 0; start = 0; end = 5 };
  write_buf = 1 ∷ 2 ∷ 3 ∷ [];
  write_buf_sent = 1;
  is_eof = false;
}

abbrev pieces : List Arrival
pieces = arrives (31 ∷ []) ∷ arrives (144 ∷ 0 ∷ 1 ∷ 42 ∷ []) ∷ []

poll_read_targeted_message-Delivers_example :
    (out : PacketAddr.ReadOut) × (PacketAddr.poll_read_targeted_message 16 packets pieces
      ≡ some out)
    × PacketRead.Delivers packets pieces out
    × ((l : NetLocation) (s n : ℕ)
        → packets.is_eof ≡ false
        → PacketAddr.try_parse_packet (as_slice packets.read_buf ++ at_hand pieces)
          ≡ ok (some (l, s, n))
        → PacketDelivery.Fits packets (s + n)
        → out.0 ≡ ready (ok (l, slice (as_slice packets.read_buf ++ at_hand pieces) s (s + n))))
poll_read_targeted_message-Delivers_example =
    PacketDelivery.poll_read_targeted_message-Delivers 16 packets pieces
      (record { ordered = omega arith; inside = omega arith }) (omega arith)

abbrev sink : Sink
sink = record { answers = takes 1 ∷ busy ∷ takes 9 ∷ takes 9 ∷ []; sent = 0 ∷ 1 ∷ [] }

poll_write_sourced_message-Stages_example :
    PacketWrite.Stages
      (42 ∷ [])
      peer
      (sink.sent ++ PacketWrite.unsent packets)
      (PacketAddr.poll_write_sourced_message (42 ∷ []) peer packets sink)
poll_write_sourced_message-Stages_example =
    PacketWrite.poll_write_sourced_message-Stages (42 ∷ []) peer packets sink

poll_flush_message-Flushes_example :
    PacketWrite.Flushes
      (sink.sent ++ PacketWrite.unsent packets)
      (PacketAddr.poll_flush_message packets sink)
poll_flush_message-Flushes_example = PacketWrite.poll_flush_message-Flushes packets sink

try_parse_packet-frame_example :
    (PacketAddr.try_parse_packet (PacketWrite.frame peer (42 ∷ []) ++ (1 ∷ []))
      ≡ ok (some (to_location peer, length (write_uot_address peer) + 2, 1)))
    × (slice
          (PacketWrite.frame peer (42 ∷ []) ++ (1 ∷ []))
          (length (write_uot_address peer) + 2)
          (length (write_uot_address peer) + 2 + 1)
        ≡ 42 ∷ [])
try_parse_packet-frame_example =
    PacketWrite.try_parse_packet-frame peer (42 ∷ []) (1 ∷ []) (refl, omega arith, omega arith)
      (omega arith)

parse_uot_address-write_uot_address_example :
    parse_uot_address (write_uot_address peer ++ (5 ∷ []))
    ≡ ok (some (to_location peer, length (write_uot_address peer)))
parse_uot_address-write_uot_address_example =
    parse_uot_address-write_uot_address peer (5 ∷ []) (refl, omega arith, omega arith)

-- The memory of a stream of messages.
abbrev memory : List ℕ
memory = replicate 65537 0

abbrev messages : Vless.VlessMessageStream
messages = record {
  read_buf = memory;
  read_end_index = 0;
  pending_write = 0 ∷ 1 ∷ 7 ∷ [];
  write_offset = 2;
  is_eof = false;
}

length-memory : length memory ≡ 65537
length-memory = length-replicate {A = ℕ} 65537 0

abbrev message_pieces : List Arrival
message_pieces = arrives (0 ∷ 2 ∷ 5 ∷ []) ∷ not_yet ∷ arrives (6 ∷ 0 ∷ []) ∷ []

poll_read_message-Delivers_example :
    (out : Vless.ReadOut) × (Vless.poll_read_message 100 messages message_pieces ≡ some out)
    × VlessRead.DeliversFrom false false (VlessRead.undelivered messages message_pieces) out
    × ((m : List ℕ) (n : ℕ)
        → messages.is_eof ≡ false
        → VlessRead.parse_message (VlessRead.live messages ++ at_hand message_pieces) ≡ some (m, n)
        → length m ≤ 100
        → out.0 ≡ ready (ok m))
poll_read_message-Delivers_example =
    VlessDelivery.poll_read_message-Delivers 100 messages message_pieces
      (record { inside = omega arith; capacity = omega (arith, length-memory) }) (omega arith)

poll_write_message-Stages_example :
    VlessWrite.Stages
      (8 ∷ [])
      (sink.sent ++ VlessWrite.unsent messages)
      (Vless.poll_write_message (8 ∷ []) messages sink)
poll_write_message-Stages_example = VlessWrite.poll_write_message-Stages (8 ∷ []) messages sink

poll_flush_message-Sends_example :
    VlessWrite.Flushes
      (sink.sent ++ VlessWrite.unsent messages)
      (Vless.poll_flush_message messages sink)
poll_flush_message-Sends_example = VlessWrite.poll_flush_message-Sends messages sink

-- A writer, what it is after a message, and the bytes of that message at hand in two pieces.
abbrev writer : Vless.VlessMessageStream
writer = Vless.new []

abbrev written : Vless.VlessMessageStream
written = record writer { pending_write = 0 ∷ 2 ∷ 8 ∷ 9 ∷ [] }

abbrev idle : Sink
idle = record { answers = []; sent = [] }

abbrev halves : List Arrival
halves = arrives (0 ∷ 2 ∷ 8 ∷ []) ∷ arrives (9 ∷ 1 ∷ []) ∷ []
