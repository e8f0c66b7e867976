-- ===== src/Message/Vless.antt =====
-- src/message_stream.rs, VlessMessageStream: messages behind a length of two bytes.
pub mod Read
pub mod Delivery
pub mod RoundTrip
pub mod Write
use rust_proxy.Prelude.{
  ℕ, zero, suc, ◌+◌, ◌-◌, ◌%◌, ◌^◌, min, ◌⊎◌, inl, inr, Bool, true, false, ◌&&◌, Option, none, some,
  List, [], ◌∷◌, ◌++◌, ltb, leb, ◌==◌, if◌then◌else◌, length, get_or, take, drop, be16, from_be16,
  slice, write_at, Arrival, poll_read, Answer, busy, fails, takes, Sink, poll_done, Error, Result,
  ok, err, panic, Poll, pending, ready,
}

-- Without the `stream` field: what it answers is an argument of each call.
pub record VlessMessageStream : Type 0 where
  pub read_buf : List ℕ
  pub read_end_index : ℕ
  pub pending_write : List ℕ
  pub write_offset : ℕ
  pub is_eof : Bool

-- `memory` is the 65537 bytes that `allocate_vec` hands out.
abbrev pub new : List ℕ → VlessMessageStream
new memory = record {
  read_buf = memory;
  read_end_index = 0;
  pending_write = [];
  write_offset = 0;
  is_eof = false;
}

abbrev pub ReadOut : Type 0
ReadOut = Poll (Result (List ℕ)) × VlessMessageStream × List Arrival

-- One turn of the loop: it returns (`inl`), or goes round again (`inr`).
abbrev pub Turn : Type 0
Turn = ReadOut ⊎ (VlessMessageStream × List Arrival)

-- The bytes that were read, behind those that are there already.
abbrev pub extend : VlessMessageStream → List ℕ → VlessMessageStream
extend st chunk = record st {
  read_buf = write_at st.read_buf st.read_end_index chunk;
  read_end_index = st.read_end_index + length chunk;
}

unfoldable pub received : VlessMessageStream → Poll (Result (List ℕ)) × List Arrival → Turn
received st (pending, es) = inl (pending, st, es)
received st (ready (err e), es) = inl (ready (err e), st, es)
received st (ready panic, es) = inl (ready panic, st, es)
received st (ready (ok []), es) =
    let st' : VlessMessageStream = record st { is_eof = true } in
    if st.read_end_index == 0
    then inl (ready (ok []), st', es)
    else inl (ready (err Error.unexpected_eof), st', es)
received st (ready (ok (x ∷ xs)), es) = inr (extend st (x ∷ xs), es)

-- The end of the loop's body. `assert!(!read_buf_slice.is_empty())` panics on a full buffer.
unfoldable pub fill : VlessMessageStream → List Arrival → Turn
fill st es =
    let room = length st.read_buf - st.read_end_index in
    if room == 0 then inl (ready panic, st, es) else received st (poll_read room es)

-- The whole message at the front of the buffer goes to the caller; the bytes behind it move up.
unfoldable pub deliver : ℕ → ℕ → VlessMessageStream → List Arrival → Turn
deliver room payload_len st es =
    let total_len = 2 + payload_len in
    let rest = slice st.read_buf total_len st.read_end_index in
    let st' : VlessMessageStream = record st {
      read_buf = write_at st.read_buf 0 rest;
      read_end_index = st.read_end_index - total_len;
    } in
    if ltb room payload_len
    then inl (ready (err Error.other), st, es)
    else if ltb total_len st.read_end_index
    then inl (ready (ok (slice st.read_buf 2 total_len)), st', es)
    else inl (ready (ok (slice st.read_buf 2 total_len)), record st { read_end_index = 0 }, es)

unfoldable pub read_turn : ℕ → VlessMessageStream → List Arrival → Turn
read_turn room st es =
    let payload_len = from_be16 (get_or st.read_buf 0 0) (get_or st.read_buf 1 0) in
    if leb 2 st.read_end_index && leb (2 + payload_len) st.read_end_index
    then deliver room payload_len st es
    else fill st es

-- `none` is the end of the fuel.
unfoldable pub read_loop : ℕ → ℕ → VlessMessageStream → List Arrival → Option ReadOut
read_loop zero room st es = none
read_loop (suc fuel) room st es = elim (read_turn room st es) [
  | inl out ↦ some out
  | inr (st', es') ↦ read_loop fuel room st' es'
]

-- Each round reads a byte at least, and the buffer has room for its capacity.
unfoldable pub poll_read_message : ℕ → VlessMessageStream → List Arrival → Option ReadOut
poll_read_message room st es =
    if st.is_eof
    then some (ready (ok []), st, es)
    else read_loop (length st.read_buf + 1) room st es

abbrev pub WriteOut : Type 0
WriteOut = Poll (Result (Unit {0})) × VlessMessageStream × Sink

abbrev pub Drained : Type 0
Drained = Poll (Result (Unit {0})) × ℕ × Sink

-- The loop that writes `buf[i..]`, by recursion on the answers; a writer that accepts no byte is an
-- error. The new value of `write_offset` stands beside the result.
unfoldable pub drain : List Answer → List ℕ → List ℕ → ℕ → Drained
drain [] out buf i =
    let k : Sink = record { answers = []; sent = out } in
    if ltb i (length buf) then (pending, i, k) else (ready (ok tt), i, k)
drain (busy ∷ rest) out buf i =
    if ltb i (length buf)
    then (pending, i, record { answers = rest; sent = out })
    else (ready (ok tt), i, record { answers = busy ∷ rest; sent = out })
drain (fails e ∷ rest) out buf i =
    if ltb i (length buf)
    then (ready (err (Error.device e)), i, record { answers = rest; sent = out })
    else (ready (ok tt), i, record { answers = fails e ∷ rest; sent = out })
drain (takes n ∷ rest) out buf i =
    let written = min n (length (drop i buf)) in
    let again = drain rest (out ++ take written (drop i buf)) buf (i + written) in
    if ltb i (length buf)
    then (if written == 0
        then (ready (err Error.write_zero), i, record { answers = rest; sent = out })
        else again)
    else (ready (ok tt), i, record { answers = takes n ∷ rest; sent = out })

abbrev pub at_offset : VlessMessageStream → ℕ → VlessMessageStream
at_offset st i = record st { write_offset = i }

-- The match on the writer's `poll_flush`.
unfoldable pub flushed : VlessMessageStream → Poll (Result (Unit {0})) × Sink → WriteOut
flushed st (pending, k) = (pending, st, k)
flushed st (ready (err e), k) = (ready (err e), st, k)
flushed st (ready panic, k) = (ready panic, st, k)
flushed st (ready (ok _), k) =
    (ready (ok tt), record st { pending_write = []; write_offset = 0 }, k)

unfoldable pub flush_behind : VlessMessageStream → Drained → WriteOut
flush_behind st (pending, i, k) = (pending, at_offset st i, k)
flush_behind st (ready (err e), i, k) = (ready (err e), at_offset st i, k)
flush_behind st (ready panic, i, k) = (ready panic, at_offset st i, k)
flush_behind st (ready (ok _), i, k) = flushed (at_offset st i) (poll_done k)

unfoldable pub poll_flush_message : VlessMessageStream → Sink → WriteOut
poll_flush_message st k = flush_behind st (drain k.answers k.sent st.pending_write st.write_offset)

-- `extend_from_slice` adds to what is pending; behind a flush that is nothing.
unfoldable pub stage : List ℕ → VlessMessageStream → Sink → WriteOut
stage buf st k = if ltb 65535 (length buf) then (ready (err Error.invalid_input), st, k) else (
  ready (ok tt),
  record st {
    pending_write = st.pending_write ++ (be16 (length buf % 2 ^ 16) ++ buf);
    write_offset = 0;
  },
  k,
)

-- After the flush of what was pending: an error ends the write, and bytes that are left make it wait.
unfoldable pub write_behind : List ℕ → WriteOut → WriteOut
write_behind buf (ready (err e), st, k) = (ready (err e), st, k)
write_behind buf (ready panic, st, k) = (ready panic, st, k)
write_behind buf (pending, st, k) =
    if length st.pending_write == 0 then stage buf st k else (pending, st, k)
write_behind buf (ready (ok _), st, k) =
    if length st.pending_write == 0 then stage buf st k else (pending, st, k)

unfoldable pub poll_write_message : List ℕ → VlessMessageStream → Sink → WriteOut
poll_write_message buf st k =
    if length st.pending_write == 0
    then stage buf st k
    else write_behind buf (poll_flush_message st k)

unfoldable pub poll_shutdown_message : VlessMessageStream → Sink → WriteOut
poll_shutdown_message st k =
    let (r, st', k') = poll_flush_message st k in
    let (r', k'') = poll_done k' in
    elim r [
      | pending ↦ (pending, st', k')
      | ready (err e) ↦ (ready (err e), st', k')
      | ready panic ↦ (ready panic, st', k')
      | ready (ok _) ↦ (r', st', k'')
    ]
