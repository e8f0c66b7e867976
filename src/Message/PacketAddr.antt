-- ===== src/Message/PacketAddr.antt =====
-- src/message_stream.rs, PacketAddrStream: packets that carry an address, over a byte stream.
-- The codec is the one that the source has, UOT_ADDR_CODEC.
pub mod Read
pub mod Delivery
pub mod Write
use rust_proxy.Prelude.{
  ℕ, zero, suc, ◌+◌, ◌%◌, ◌^◌, min, ◌⊎◌, inl, inr, Bool, true, Option, none, some, List, [], ◌∷◌,
  ◌++◌, ltb, ◌==◌, if◌then◌else◌, length, get_or, take, drop, be16, from_be16, slice, Arrival,
  poll_read, Answer, busy, fails, takes, Sink, poll_done, Error, Result, ok, err, panic, ◌>>=◌,
  Poll, pending, ready,
}
use rust_proxy.Address.{NetLocation, SocketAddr, v4, v6, unspecified}
use rust_proxy.Message.SlideBuffer
use rust_proxy.Message.SlideBuffer.{
  SlideBuffer, new, as_slice, remaining_capacity, write_slice, advance_write, consume,
  maybe_compact,
}
use rust_proxy.Message.UotAddress.{parse_uot_address, write_uot_address}

abbrev pub buffer_size : ℕ
buffer_size = 65535

-- Without the `stream` field: what it answers is an argument of each call. `write_buf` holds the
-- bytes below `write_buf_len`; those beyond are never read.
pub record PacketAddrStream : Type 0 where
  pub read_buf : SlideBuffer
  pub write_buf : List ℕ
  pub write_buf_sent : ℕ
  pub is_eof : Bool

-- Location, start and length of the payload of a whole packet at the front of the buffer.
unfoldable pub try_parse_packet : List ℕ → Result (Option (NetLocation × ℕ × ℕ))
try_parse_packet bytes = parse_uot_address bytes >>= elim [
  | none ↦ ok none
  | some (location, addr_len) ↦
      if ltb (length bytes) (addr_len + 2)
      then ok none
      else (let payload_len = from_be16 (get_or bytes addr_len 0) (get_or bytes (addr_len + 1) 0) in
          let payload_start = addr_len + 2 in
          if ltb (length bytes) (payload_start + payload_len)
          then ok none
          else ok (some (location, payload_start, payload_len)))
]

abbrev pub ReadOut : Type 0
ReadOut = Poll (Result (NetLocation × List ℕ)) × PacketAddrStream × List Arrival

-- One turn of a loop: it returns (`inl`), or goes round again (`inr`).
abbrev pub Turn : Type 0
Turn = ReadOut ⊎ (PacketAddrStream × List Arrival)

-- The arms of the match on the transport's `poll_read`; no byte read is the end of the stream.
unfoldable pub received : PacketAddrStream → Poll (Result (List ℕ)) × List Arrival → Turn
received st (pending, es) = inl (pending, st, es)
received st (ready (err e), es) = inl (ready (err e), st, es)
received st (ready panic, es) = inl (ready panic, st, es)
received st (ready (ok []), es) =
    inl (ready (ok (unspecified, [])), record st { is_eof = true }, es)
received st (ready (ok (x ∷ xs)), es) =
    let b = write_slice st.read_buf (x ∷ xs) in
    inr (record st { read_buf = advance_write b (length (x ∷ xs)) }, es)

-- The rest of the loop's body where the buffer holds no whole packet.
unfoldable pub fill : PacketAddrStream → List Arrival → Turn
fill st es =
    let b = maybe_compact st.read_buf 4096 in
    let st' = record st { read_buf = b } in
    if remaining_capacity b == 0
    then inl (ready (err Error.other), st', es)
    else received st' (poll_read (remaining_capacity b) es)

-- The loop's body behind `try_parse_packet`. `put_slice` panics where the caller's buffer has no
-- room for the payload.
unfoldable pub parsed :
    ℕ → PacketAddrStream → List Arrival → Result (Option (NetLocation × ℕ × ℕ)) → Turn
parsed room st es (err e) = inl (ready (err e), st, es)
parsed room st es panic = inl (ready panic, st, es)
parsed room st es (ok none) = fill st es
parsed room st es (ok (some (location, payload_start, payload_len))) =
    let total_consumed = payload_start + payload_len in
    if ltb room payload_len
    then inl (ready panic, st, es)
    else inl (
      ready (ok (location, slice (as_slice st.read_buf) payload_start total_consumed)),
      record st { read_buf = consume st.read_buf total_consumed },
      es,
    )

unfoldable pub read_turn : ℕ → PacketAddrStream → List Arrival → Turn
read_turn room st es = parsed room st es (try_parse_packet (as_slice st.read_buf))

-- `none` is the end of the fuel.
unfoldable pub read_loop : ℕ → ℕ → PacketAddrStream → List Arrival → Option ReadOut
read_loop zero room st es = none
read_loop (suc fuel) room st es = elim (read_turn room st es) [
  | inl out ↦ some out
  | inr (st', es') ↦ read_loop fuel room st' es'
]

-- Each round reads a byte at least, and the buffer has room for its capacity.
unfoldable pub poll_read_targeted_message : ℕ → PacketAddrStream → List Arrival → Option ReadOut
poll_read_targeted_message room st es =
    if st.is_eof
    then some (ready (ok (unspecified, [])), st, es)
    else read_loop (length st.read_buf.bytes + 1) room st es

abbrev pub WriteOut : Type 0
WriteOut = Poll (Result (Unit {0})) × PacketAddrStream × Sink

-- The loop that writes `buf[i..]`, by recursion on the answers: a writer that accepts no byte is asked
-- again, so that one that never accepts any, on which the source spins, has no end of its answers here. The new
-- value of `write_buf_sent` stands beside the result.
unfoldable pub drain : List Answer → List ℕ → List ℕ → ℕ → Poll (Result (Unit {0})) × ℕ × Sink
drain [] out buf i =
    let k : Sink = record { answers = []; sent = out } in
    if ltb i (length buf) then (pending, i, k) else (ready (ok tt), i, k)
drain (busy ∷ rest) out buf i =
    if ltb i (length buf)
    then (pending, i, record { answers = rest; sent = out })
    else (ready (ok tt), i, record { answers = busy ∷ rest; sent = out })
drain (fails e ∷ rest) out buf i =
    if ltb i (length buf)
    then (ready (err (Error.device e)), i, record { answers = rest; sent = out })
    else (ready (ok tt), i, record { answers = fails e ∷ rest; sent = out })
drain (takes n ∷ rest) out buf i =
    let written = min n (length (drop i buf)) in
    let again = drain rest (out ++ take written (drop i buf)) buf (i + written) in
    if ltb i (length buf)
    then again
    else (ready (ok tt), i, record { answers = takes n ∷ rest; sent = out })

-- What `total_len` adds for the address.
unfoldable pub addr_len : SocketAddr → ℕ
addr_len (v4 octets port) = 7
addr_len (v6 octets port) = 19

abbrev pub clear_write : PacketAddrStream → PacketAddrStream
clear_write st = record st { write_buf = []; write_buf_sent = 0 }

-- The body behind the loop: the frame is put into the write buffer, to be sent by the next flush.
unfoldable pub stage : List ℕ → SocketAddr → PacketAddrStream → Result (Unit {0}) × PacketAddrStream
unfolding addr_len
stage buf source st =
    let total_len = addr_len source + 2 + length buf in
    if ltb buffer_size total_len then (err Error.other, clear_write st) else (
      ok tt,
      record (clear_write st) {
        write_buf = write_uot_address source ++ (be16 (length buf % 2 ^ 16) ++ buf);
      },
    )

abbrev at_sent : PacketAddrStream → ℕ → PacketAddrStream
at_sent st i = record st { write_buf_sent = i }

abbrev pub Drained : Type 0
Drained = Poll (Result (Unit {0})) × ℕ × Sink

-- What a write and a flush do when the loop has ended.
unfoldable pub write_behind : List ℕ → SocketAddr → PacketAddrStream → Drained → WriteOut
unfolding stage
write_behind buf source st (pending, i, k) = (pending, at_sent st i, k)
write_behind buf source st (ready (err e), i, k) = (ready (err e), at_sent st i, k)
write_behind buf source st (ready panic, i, k) = (ready panic, at_sent st i, k)
write_behind buf source st (ready (ok _), i, k) =
    let (r, st') = stage buf source (at_sent st i) in (ready r, st', k)

unfoldable pub flush_behind : PacketAddrStream → Drained → WriteOut
flush_behind st (pending, i, k) = (pending, at_sent st i, k)
flush_behind st (ready (err e), i, k) = (ready (err e), at_sent st i, k)
flush_behind st (ready panic, i, k) = (ready panic, at_sent st i, k)
flush_behind st (ready (ok _), i, k) = let (r, k') = poll_done k in (r, clear_write st, k')

unfoldable pub poll_write_sourced_message : List ℕ → SocketAddr → PacketAddrStream → Sink → WriteOut
poll_write_sourced_message buf source st k =
    write_behind buf source st (drain k.answers k.sent st.write_buf st.write_buf_sent)

unfoldable pub poll_flush_message : PacketAddrStream → Sink → WriteOut
poll_flush_message st k = flush_behind st (drain k.answers k.sent st.write_buf st.write_buf_sent)

unfoldable pub poll_shutdown_message : PacketAddrStream → Sink → WriteOut
unfolding poll_flush_message
poll_shutdown_message st k =
    let (r, st', k') = poll_flush_message st k in
    let (r', k'') = poll_done k' in
    elim r [
      | pending ↦ (pending, st', k')
      | ready (err e) ↦ (ready (err e), st', k')
      | ready panic ↦ (ready panic, st', k')
      | ready (ok _) ↦ (r', st', k'')
    ]
