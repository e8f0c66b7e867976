-- ===== src/Anytls/Stream.antt =====
-- src/anytls/stream.rs: one stream of a session, between the session's channels and its user.
pub mod Read
pub mod Write
use rust_proxy.Prelude.{
  ℕ, ◌+◌, ◌-◌, min, Bool, true, false, ◌&&◌, none, List, [], ◌∷◌, ◌++◌, ltb, leb, ◌==◌,
  if◌then◌else◌, length, take, drop, slice, Error, Result, ok, err, Poll, pending, ready,
}

abbrev pub max_frame_data_size : ℕ
max_frame_data_size = 65535

pub record AnyTlsStream : Type 0 where
  pub id : ℕ
  pub read_buffer : List ℕ
  pub read_offset : ℕ
  pub stream_closed : Bool
  pub shutdown_in_progress : Bool
  pub eof : Bool

abbrev pub new : ℕ → AnyTlsStream
new i = record {
  id = i;
  read_buffer = [];
  read_offset = 0;
  stream_closed = false;
  shutdown_in_progress = false;
  eof = false;
}

-- What `data_rx` gives to the next calls of `poll_recv`; `hung_up` is `Ready(None)`.
pub data Mail : Type 0 where
  none_yet : Mail
  hung_up : Mail
  message : List ℕ → Mail

abbrev pub ReadOut : Type 0
ReadOut = Poll (Result (List ℕ)) × AnyTlsStream × List Mail

-- The bytes that the buffer still holds.
abbrev pub remaining_in_buffer : AnyTlsStream → List ℕ
remaining_in_buffer s = drop s.read_offset s.read_buffer

-- `put_slice` of buffered bytes, and the reset of a buffer that is used up.
unfoldable pub from_buffer : AnyTlsStream → ℕ → AnyTlsStream
from_buffer s n =
    if leb (length s.read_buffer) (s.read_offset + n)
    then record s { read_buffer = []; read_offset = 0 }
    else record s { read_offset = s.read_offset + n }

unfoldable pub from_message : AnyTlsStream → ℕ → List ℕ → AnyTlsStream
from_message s n bytes =
    if ltb n (length bytes) then record s { read_buffer = bytes; read_offset = n } else s

-- The answers of `poll_recv`.
unfoldable pub received : AnyTlsStream → ℕ → List Mail → ReadOut
received s room [] = (pending, s, [])
received s room (none_yet ∷ rest) = (pending, s, rest)
received s room (hung_up ∷ rest) = (ready (ok []), record s { eof = true }, rest)
received s room (message [] ∷ rest) = (ready (ok []), record s { eof = true }, rest)
received s room (message (b ∷ bs) ∷ rest) =
    let n = min (length (b ∷ bs)) room in
    (ready (ok (take n (b ∷ bs))), from_message s n (b ∷ bs), rest)

-- `room` is `buf.remaining()`.
unfoldable pub poll_read : AnyTlsStream → ℕ → List Mail → ReadOut
poll_read s room mail =
    let left = length s.read_buffer - s.read_offset in
    if s.stream_closed
    then (ready (err Error.broken_pipe), s, mail)
    else if s.eof && (left == 0)
    then (ready (ok []), s, mail)
    else if ltb 0 left
    then (let n = min left room in
        (ready (ok (slice s.read_buffer s.read_offset (s.read_offset + n))), from_buffer s n, mail))
    else received s room mail

-- What `poll_reserve` and then `send_item` of `data_tx` answer: a free slot, none yet, a channel that is
-- closed, and one that is closed between the two calls.
pub data Slot : Type 0 where
  free : Slot
  full : Slot
  closed : Slot
  closes : Slot

-- The way to the session: the answers to come, and the messages that are sent.
pub record Outgoing : Type 0 where
  pub slots : List Slot
  pub queue : List (ℕ × List ℕ)

abbrev push : List (ℕ × List ℕ) → List Slot → ℕ × List ℕ → Outgoing
push q rest m = record { slots = rest; queue = q ++ (m ∷ []) }

unfoldable pub reserved :
    AnyTlsStream → List ℕ → List Slot → List (ℕ × List ℕ) → Poll (Result ℕ) × Outgoing
reserved s buf [] q = (pending, record { slots = []; queue = q })
reserved s buf (full ∷ rest) q = (pending, record { slots = rest; queue = q })
reserved s buf (closed ∷ rest) q =
    (ready (err Error.broken_pipe), record { slots = rest; queue = q })
reserved s buf (closes ∷ rest) q =
    (ready (err Error.broken_pipe), record { slots = rest; queue = q })
reserved s buf (free ∷ rest) q =
    let write_len = min (length buf) max_frame_data_size in
    (ready (ok write_len), push q rest (s.id, take write_len buf))

-- `session_closed` is the shared flag, as the call reads it.
unfoldable pub poll_write : AnyTlsStream → Bool → List ℕ → Outgoing → Poll (Result ℕ) × Outgoing
poll_write s session_closed buf o =
    if s.stream_closed
    then (ready (err Error.broken_pipe), o)
    else if s.shutdown_in_progress
    then (ready (err Error.broken_pipe), o)
    else if session_closed
    then (ready (err Error.broken_pipe), o)
    else reserved s buf o.slots o.queue

abbrev pub ShutOut : Type 0
ShutOut = Poll (Result (Unit {0})) × AnyTlsStream × Outgoing

unfoldable pub shut : AnyTlsStream → List Slot → List (ℕ × List ℕ) → ShutOut
shut s [] q = (pending, s, record { slots = []; queue = q })
shut s (full ∷ rest) q = (pending, s, record { slots = rest; queue = q })
shut s (closed ∷ rest) q = (
  ready (err Error.broken_pipe),
  record s { stream_closed = true },
  record { slots = rest; queue = q },
)
shut s (closes ∷ rest) q = (
  ready (err Error.broken_pipe),
  record s { stream_closed = true },
  record { slots = rest; queue = q },
)
shut s (free ∷ rest) q = (ready (ok tt), record s { stream_closed = true }, push q rest (s.id, []))

unfoldable pub poll_shutdown : AnyTlsStream → Bool → Outgoing → ShutOut
poll_shutdown s session_closed o =
    if s.stream_closed
    then (ready (ok tt), s, o)
    else if session_closed
    then (ready (ok tt), record s { stream_closed = true }, o)
    else shut (record s { shutdown_in_progress = true }) o.slots o.queue

-- `try_send` gives up where there is no free slot.
unfoldable pub send_fin_best_effort : AnyTlsStream → List Slot → List (ℕ × List ℕ) → Outgoing
send_fin_best_effort s [] q = record { slots = []; queue = q }
send_fin_best_effort s (full ∷ rest) q = record { slots = rest; queue = q }
send_fin_best_effort s (closed ∷ rest) q = record { slots = rest; queue = q }
send_fin_best_effort s (closes ∷ rest) q = record { slots = rest; queue = q }
send_fin_best_effort s (free ∷ rest) q = push q rest (s.id, [])

-- `Drop`
unfoldable pub drop_stream : AnyTlsStream → Outgoing → AnyTlsStream × Outgoing
drop_stream s o =
    if s.stream_closed
    then (s, o)
    else (let s' = record s { stream_closed = true } in
        (s', send_fin_best_effort s' o.slots o.queue))
