-- ===== src/Copy.antt =====
-- src/copy_bidirectional.rs: copying between two streams through a ring buffer.
pub mod Ring
pub mod Fifo
pub mod Rounds
pub mod Ends
pub mod Transfer
pub mod Bidirectional
use mathlib.Core.Option
use rust_proxy.Prelude.{
  ℕ, zero, suc, ◌+◌, ◌-◌, ◌%◌, ◌<◌, min, ◌⊎◌, inl, inr, Bool, true, false, not, ◌&&◌, ◌||◌, Option,
  none, some, List, [], ◌∷◌, map, ltb, leb, ◌==◌, if◌then◌else◌, length, slice, write_at, Arrival,
  arrives, poll_read, arriving, Sink, poll_write, poll_done, Error, Result, ok, err, panic, Poll,
  pending, ready,
}

pub record CopyBuffer : Type 0 where
  pub read_done : Bool
  pub need_flush : Bool
  pub need_write_ping : Bool
  pub start_index : ℕ
  pub cache_length : ℕ
  pub size : ℕ
  pub buf : List ℕ

-- `memory` is the `size` bytes that `allocate_vec` hands out.
abbrev pub new : List ℕ → Bool → CopyBuffer
new memory need_initial_flush = record {
  read_done = false;
  need_flush = need_initial_flush;
  need_write_ping = false;
  start_index = 0;
  cache_length = 0;
  size = length memory;
  buf = memory;
}

abbrev pub unused_start : CopyBuffer → ℕ
unused_start c = (c.start_index + c.cache_length) % c.size

abbrev pub unused_end : CopyBuffer → ℕ
unused_end c = if ltb (unused_start c) c.start_index then c.start_index else c.size

-- The bytes of one read go to the free part of the ring.
unfoldable pub fill_ring : CopyBuffer → List ℕ → CopyBuffer
fill_ring c chunk = record c {
  buf = write_at c.buf (unused_start c) chunk;
  cache_length = c.cache_length + length chunk;
}

-- A direction of a copy: its buffer, what arrives from the reader, and the writer.
pub record World : Type 0 where
  pub ring : CopyBuffer
  pub incoming : List Arrival
  pub out : Sink

abbrev pub with_ring : World → CopyBuffer → World
with_ring w c = record w { ring = c }

-- What a phase of a round ends with: whether its side is pending, or an error; and the world.
abbrev pub Phase : Type 0
Phase = Result Bool × World

unfoldable pub read_answer : World → Poll (Result (List ℕ)) × List Arrival → Phase ⊎ World
read_answer w (pending, es) = inl (ok true, record w { incoming = es })
read_answer w (ready (err e), es) = inl (err e, record w { incoming = es })
read_answer w (ready panic, es) = inl (panic, record w { incoming = es })
read_answer w (ready (ok []), es) =
    inr (record w { ring = record (w.ring) { read_done = true }; incoming = es })
read_answer w (ready (ok (x ∷ xs)), es) =
    inr (record w { ring = fill_ring w.ring (x ∷ xs); incoming = es })

-- One turn of `while !self.read_done && self.cache_length < self.size`; a slice outside the memory is a
-- panic.
unfoldable pub read_turn : World → Phase ⊎ World
read_turn w =
    let c = w.ring in
    if not c.read_done && ltb c.cache_length c.size
    then (if leb (unused_start c) (unused_end c) && leb (unused_end c) (length c.buf)
        then read_answer w (poll_read (unused_end c - unused_start c) w.incoming)
        else inl (panic, w))
    else inl (ok false, w)

abbrev pub used_end : CopyBuffer → ℕ
used_end c = min (c.start_index + c.cache_length) c.size

abbrev pub used : CopyBuffer → List ℕ
used c = slice c.buf c.start_index (used_end c)

unfoldable pub drain_ring : CopyBuffer → ℕ → CopyBuffer
drain_ring c written =
    let left = c.cache_length - written in
    record c {
      cache_length = left;
      start_index = if left == 0 then 0 else (c.start_index + written) % c.size;
      need_flush = true;
    }

unfoldable pub write_answer : World → Poll (Result ℕ) × Sink → Phase ⊎ World
write_answer w (pending, k) = inl (ok true, record w { out = k })
write_answer w (ready (err e), k) = inl (err e, record w { out = k })
write_answer w (ready panic, k) = inl (panic, record w { out = k })
write_answer w (ready (ok written), k) =
    if written == 0
    then inl (err Error.write_zero, record w { out = k })
    else inr (record w { ring = drain_ring w.ring written; out = k })

-- One turn of `while self.cache_length > 0`; a slice outside the memory is a panic.
unfoldable pub write_turn : World → Phase ⊎ World
write_turn w =
    let c = w.ring in
    if ltb 0 c.cache_length
    then (if leb c.start_index (used_end c) && leb (used_end c) (length c.buf)
        then write_answer w (poll_write (used c) w.out)
        else inl (panic, w))
    else inl (ok false, w)

-- A loop of such turns; `none` is the end of the fuel.
unfoldable pub phase : (World → Phase ⊎ World) → ℕ → World → Option Phase
phase turn zero w = none
phase turn (suc fuel) w = elim (turn w) [ inl out ↦ some out | inr w' ↦ phase turn fuel w' ]

-- `poll_write_ping`; the bytes of a ping are no bytes of the copy, and `written` says if there are any.
unfoldable pub ping_answer : World → Bool → Poll (Result (Unit {0})) × Sink → Phase
ping_answer w written (pending, k) = (ok true, record w { out = k })
ping_answer w written (ready (err e), k) = (err e, record w { out = k })
ping_answer w written (ready panic, k) = (panic, record w { out = k })
ping_answer w written (ready (ok _), k) =
    let c = w.ring in
    (
      ok false,
      record w {
        ring = record c { need_write_ping = false; need_flush = c.need_flush || written };
        out = k;
      },
    )

-- `pings` is what the writer answers when it is ready: whether it wrote a ping.
unfoldable pub ping : Bool → World → Phase
ping pings w =
    let c = w.ring in
    if c.need_write_ping
    then (if c.cache_length == 0
        then ping_answer w pings (poll_done w.out)
        else (ok false, with_ring w (record c { need_write_ping = false })))
    else (ok false, w)

abbrev pub Done : Type 0
Done = Poll (Result (Unit {0})) × World

-- The end of a round of the outer loop: `inr` where it goes round again.
unfoldable pub decide : Bool → World → Done ⊎ World
decide some_pending w =
    let c = w.ring in
    if c.read_done && (c.cache_length == 0)
    then inl (ready (ok tt), w)
    else if some_pending
    then inl (pending, w)
    else inr w

unfoldable pub flush_answer : Bool → World → Poll (Result (Unit {0})) × Sink → Done ⊎ World
flush_answer some_pending w (pending, k) = inl (pending, record w { out = k })
flush_answer some_pending w (ready (err e), k) = inl (ready (err e), record w { out = k })
flush_answer some_pending w (ready panic, k) = inl (ready panic, record w { out = k })
flush_answer some_pending w (ready (ok _), k) =
    decide some_pending (record w { ring = record (w.ring) { need_flush = false }; out = k })

unfoldable pub after_write : Bool → Phase → Done ⊎ World
after_write some_pending (err e, w) = inl (ready (err e), w)
after_write some_pending (panic, w) = inl (ready panic, w)
after_write some_pending (ok write_pending, w) =
    let some_pending' = some_pending || write_pending in
    if w.ring.need_flush
    then flush_answer some_pending' w (poll_done w.out)
    else decide some_pending' w

-- Enough turns for each loop: one for a byte, and two to see the ends.
abbrev pub turns : World → ℕ
turns w = w.ring.size + 2

unfoldable pub after_ping : Bool → Phase → Option (Done ⊎ World)
after_ping read_pending (err e, w) = some (inl (ready (err e), w))
after_ping read_pending (panic, w) = some (inl (ready panic, w))
after_ping read_pending (ok ping_pending, w) =
    Option.map (after_write (read_pending || ping_pending)) (phase write_turn (turns w) w)

unfoldable pub after_read : Bool → Phase → Option (Done ⊎ World)
after_read pings (err e, w) = some (inl (ready (err e), w))
after_read pings (panic, w) = some (inl (ready panic, w))
after_read pings (ok read_pending, w) = after_ping read_pending (ping pings w)

-- A round of the outer loop.
unfoldable pub round : Bool → World → Option (Done ⊎ World)
round pings w = elim (phase read_turn (turns w) w) [ none ↦ none | some p ↦ after_read pings p ]

unfoldable pub rounds : ℕ → Bool → World → Option Done
rounds zero pings w = none
rounds (suc fuel) pings w = elim (round pings w) [
  | none ↦ none
  | some (inl out) ↦ some out
  | some (inr w') ↦ rounds fuel pings w'
]

-- `budget` is what tokio's `poll_proceed` answers. A round that does not return has filled the ring, so
-- there are no more rounds than bytes that wait or arrive, and one.
unfoldable pub poll_copy : Bool → Bool → World → Option Done
poll_copy budget pings w =
    if budget
    then rounds (w.ring.cache_length + length (arriving w.incoming) + 1) pings w
    else some (pending, w)
