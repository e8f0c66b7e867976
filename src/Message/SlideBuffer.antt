-- ===== src/Message/SlideBuffer.antt =====
-- src/message_stream.rs, SlideBuffer: a buffer of fixed capacity with a window of live bytes.
use rust_proxy.Prelude.{
  ℕ, ◌+◌, ◌-◌, ◌≤◌, ◌≡◌, sym, ◌∙◌, inl, inr, List, ◌++◌, arith, ltb, leb, if◌then◌else◌, leb→le,
  Bool-cases, length, drop, slice, write_at, length-slice, length-write_at, slice-write_at_end,
  slice-write_at_zero, drop-slice,
}

pub record SlideBuffer : Type 0 where
  pub bytes : List ℕ
  pub start : ℕ
  pub end : ℕ

-- `memory` is what `allocate_vec` hands out, which is not initialised: any bytes.
abbrev pub new : List ℕ → SlideBuffer
new memory = record { bytes = memory; start = 0; end = 0 }

abbrev pub len : SlideBuffer → ℕ
len b = b.end - b.start

abbrev pub remaining_capacity : SlideBuffer → ℕ
remaining_capacity b = length b.bytes - b.end

abbrev pub as_slice : SlideBuffer → List ℕ
as_slice b = slice b.bytes b.start b.end

-- The bytes that a read leaves in `write_slice`, and `advance_write` by their number.
unfoldable pub write_slice : SlideBuffer → List ℕ → SlideBuffer
write_slice b chunk = record b { bytes = write_at b.bytes b.end chunk }

unfoldable pub advance_write : SlideBuffer → ℕ → SlideBuffer
advance_write b n = record b { end = b.end + n }

unfoldable pub consume : SlideBuffer → ℕ → SlideBuffer
consume b n =
    if leb b.end (b.start + n)
    then record b { start = 0; end = 0 }
    else record b { start = b.start + n }

unfoldable pub maybe_compact : SlideBuffer → ℕ → SlideBuffer
maybe_compact b threshold =
    if ltb threshold b.start
    then (if ltb b.start b.end
        then record b { bytes = write_at b.bytes 0 (as_slice b); start = 0; end = b.end - b.start }
        else record b { start = 0; end = 0 })
    else b

-- The window lies inside the memory.
pub record IsValid (b : SlideBuffer) : Type 0 where
  pub ordered : b.start ≤ b.end
  pub inside : b.end ≤ length b.bytes

pub length-as_slice : {b : SlideBuffer} → IsValid b → length (as_slice b) ≡ len b
length-as_slice {b} v = length-slice b.bytes b.start b.end v.inside

-- What a read adds, the live bytes afterwards end with.
pub as_slice-advance_write :
    {b : SlideBuffer} (chunk : List ℕ)
    → IsValid b
    → length chunk ≤ remaining_capacity b
    → as_slice (advance_write (write_slice b chunk) (length chunk)) ≡ as_slice b ++ chunk
unfolding advance_write write_slice
as_slice-advance_write {b} chunk v h =
    slice-write_at_end b.bytes b.start b.end chunk v.ordered (omega (arith, v.inside))

pub advance_write-IsValid :
    {b : SlideBuffer} (chunk : List ℕ)
    → IsValid b
    → length chunk ≤ remaining_capacity b
    → IsValid (advance_write (write_slice b chunk) (length chunk))
unfolding advance_write write_slice
advance_write-IsValid {b} chunk v h =
    omega (arith, v.inside, v.ordered, length-write_at b.bytes b.end chunk)

pub as_slice-consume :
    {b : SlideBuffer} (n : ℕ) → IsValid b → n ≤ len b → as_slice (consume b n) ≡ drop n (as_slice b)
unfolding consume
as_slice-consume {b} n v h = elim (Bool-cases (leb b.end (b.start + n))) [
  | inl e ↦ rw e (
      let z : b.end - (b.start + n) ≡ 0 = omega (arith, leb→le _ _ e) in
      sym (drop-slice b.bytes b.start b.end n ∙ rw z))
  | inr e ↦ rw e (sym (drop-slice b.bytes b.start b.end n))
]

pub consume-IsValid : {b : SlideBuffer} (n : ℕ) → IsValid b → IsValid (consume b n)
unfolding consume
consume-IsValid n v = ground arith

-- Compaction moves the live bytes and keeps them.
pub as_slice-maybe_compact :
    {b : SlideBuffer} (threshold : ℕ)
    → IsValid b
    → as_slice (maybe_compact b threshold) ≡ as_slice b
unfolding maybe_compact
as_slice-maybe_compact {b} t v = elim (Bool-cases (ltb t b.start)) [
  | inr e ↦ rw e
  | inl e ↦ rw e (elim (Bool-cases (ltb b.start b.end)) [
    | inl f ↦ rw f (slice-write_at_zero b.bytes b.start b.end v.ordered v.inside)
    | inr f ↦ rw f (let z : b.end - b.start ≡ 0 = ground arith in rw z)
  ])
]

pub maybe_compact-IsValid :
    {b : SlideBuffer} (threshold : ℕ) → IsValid b → IsValid (maybe_compact b threshold)
unfolding maybe_compact
maybe_compact-IsValid {b} t v =
    ground (arith, length-write_at b.bytes 0 (as_slice b), length-as_slice v)

pub length-maybe_compact :
    {b : SlideBuffer} (threshold : ℕ)
    → IsValid b
    → length (maybe_compact b threshold).bytes ≡ length b.bytes
unfolding maybe_compact
length-maybe_compact {b} t v =
    ground (arith, length-write_at b.bytes 0 (as_slice b), length-as_slice v)

pub length-advance_write :
    {b : SlideBuffer} (chunk : List ℕ)
    → IsValid b
    → length chunk ≤ remaining_capacity b
    → length (advance_write (write_slice b chunk) (length chunk)).bytes ≡ length b.bytes
unfolding advance_write write_slice
length-advance_write {b} chunk v h = length-write_at b.bytes b.end chunk (omega (arith, v.inside))
