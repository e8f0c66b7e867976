-- ===== src/Reader.antt =====
-- src/stream_reader.rs: a buffered reader with peek and consume. A future that does not resolve within
-- the given answers of the transport is `pending`.
pub mod Filling
pub mod Laws
pub mod Peeking
pub mod Waiting
use rust_proxy.Prelude.{
  ℕ, zero, suc, ◌+◌, ◌-◌, ◌<◌, ◌⊎◌, inl, inr, Bool, not, ◌&&◌, Option, none, some, List, [], ◌∷◌,
  map, ltb, ◌==◌, if◌then◌else◌, length, get_or, from_be16, slice, write_at, Arrival, Error, Result,
  ok, err, panic, Poll, pending, ready, await_read,
}
use mathlib.Core.Option

pub record StreamReader : Type 0 where
  pub buf : List ℕ
  pub start_offset : ℕ
  pub end_offset : ℕ

abbrev pub default_buffer_size : ℕ
default_buffer_size = 32768

-- `memory` is what `allocate_vec` hands out.
abbrev pub new_with_buffer_size : List ℕ → StreamReader
new_with_buffer_size memory = record { buf = memory; start_offset = 0; end_offset = 0 }

abbrev pub unparsed_data : StreamReader → List ℕ
unparsed_data r = slice r.buf r.start_offset r.end_offset

unfoldable pub unparsed_data_owned : StreamReader → Option (List ℕ)
unparsed_data_owned r = if length (unparsed_data r) == 0 then none else some (unparsed_data r)

unfoldable pub is_cache_full : StreamReader → Bool
is_cache_full r = (r.start_offset == 0) && (r.end_offset == length r.buf)

unfoldable pub reset_buf_offset : StreamReader → StreamReader
reset_buf_offset r = if r.start_offset == 0 then r else record r {
  buf = write_at r.buf 0 (unparsed_data r);
  end_offset = r.end_offset - r.start_offset;
  start_offset = 0;
}

abbrev pub Wait : Type 0
Wait = Poll (Result (Unit {0})) × StreamReader × List Arrival

-- The match on the transport's `read`, whose bytes stand at the end of the buffer.
unfoldable pub arrived : StreamReader → Poll (Result (List ℕ)) × List Arrival → Wait
arrived r (pending, es) = (pending, r, es)
arrived r (ready (err e), es) = (ready (err e), r, es)
arrived r (ready panic, es) = (ready panic, r, es)
arrived r (ready (ok []), es) = (ready (err Error.connection_aborted), r, es)
arrived r (ready (ok (x ∷ xs)), es) = (
  ready (ok tt),
  record r {
    buf = write_at r.buf r.end_offset (x ∷ xs);
    end_offset = r.end_offset + length (x ∷ xs);
  },
  es,
)

unfoldable pub read : StreamReader → List Arrival → Wait
read r es =
    let r' = reset_buf_offset r in
    if is_cache_full r
    then (ready (err Error.connection_aborted), r, es)
    else arrived r' (await_read (length r'.buf - r'.end_offset) es)

-- The `?` behind the read in a waiting loop: an error ends it (`inl`), else it goes round (`inr`).
unfoldable pub go_on : Wait → Wait ⊎ (StreamReader × List Arrival)
go_on (ready (ok _), r, es) = inr (r, es)
go_on (ready (err e), r, es) = inl (ready (err e), r, es)
go_on (ready panic, r, es) = inl (ready panic, r, es)
go_on (pending, r, es) = inl (pending, r, es)

-- `while self.end_offset - self.start_offset < len { self.read(stream).await?; }`, one turn of it.
unfoldable pub wait_turn : ℕ → StreamReader → List Arrival → Wait ⊎ (StreamReader × List Arrival)
wait_turn len r es =
    if ltb (r.end_offset - r.start_offset) len
    then go_on (read r es)
    else inl (ready (ok tt), r, es)

-- `none` is the end of the fuel.
unfoldable pub wait_for : ℕ → ℕ → StreamReader → List Arrival → Option Wait
wait_for zero len r es = none
wait_for (suc fuel) len r es = elim (wait_turn len r es) [
  | inl w ↦ some w
  | inr (r', es') ↦ wait_for fuel len r' es'
]

-- Each round reads a byte at least.
abbrev pub enough : StreamReader → ℕ
enough r = length r.buf + 1

-- `debug_assert!(new_start_offset <= self.end_offset)` is not compiled into a release.
unfoldable pub consume : ℕ → StreamReader → StreamReader
consume len r =
    let new_start_offset = r.start_offset + len in
    if new_start_offset == r.end_offset
    then record r { start_offset = 0; end_offset = 0 }
    else record r { start_offset = new_start_offset }

module _ {ℓ} {A : Type ℓ} where
  -- What a reading function does when the wait has ended, with `value` of the buffer as its result.
  unfoldable pub finish :
      (StreamReader → A)
      → (StreamReader → StreamReader)
      → Wait
      → Poll (Result A) × StreamReader × List Arrival
  finish value step (ready (ok _), r, es) = (ready (ok (value r)), step r, es)
  finish value step (ready (err e), r, es) = (ready (err e), r, es)
  finish value step (ready panic, r, es) = (ready panic, r, es)
  finish value step (pending, r, es) = (pending, r, es)

abbrev pub Out : Type 0 → Type 0
Out A = Option (Poll (Result A) × StreamReader × List Arrival)

abbrev pub first_u8 : StreamReader → ℕ
first_u8 r = get_or r.buf r.start_offset 0

abbrev pub first_u16 : StreamReader → ℕ
first_u16 r = from_be16 (get_or r.buf r.start_offset 0) (get_or r.buf (r.start_offset + 1) 0)

unfoldable pub read_u8 : StreamReader → List Arrival → Out ℕ
read_u8 r es = Option.map (finish first_u8 (consume 1)) (wait_for (enough r) 1 r es)

unfoldable pub read_u16_be : StreamReader → List Arrival → Out ℕ
read_u16_be r es = Option.map (finish first_u16 (consume 2)) (wait_for (enough r) 2 r es)

abbrev pub front : ℕ → StreamReader → List ℕ
front len r = slice r.buf r.start_offset (r.start_offset + len)

unfoldable pub peek_slice : ℕ → StreamReader → List Arrival → Out (List ℕ)
peek_slice len r es =
    if ltb (length r.buf) len
    then some (ready (err Error.invalid_input), r, es)
    else Option.map (finish (front len) (λ r. r)) (wait_for (enough r) len r es)

unfoldable pub read_slice : ℕ → StreamReader → List Arrival → Out (List ℕ)
read_slice len r es =
    if ltb (length r.buf) len
    then some (ready (err Error.invalid_input), r, es)
    else Option.map (finish (front len) (consume len)) (wait_for (enough r) len r es)
