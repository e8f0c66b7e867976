-- ===== src/Anytls/Session/Wire.antt =====
-- src/anytls/session.rs: what a session writes to its connection, with and without padding.
use rust_proxy.Prelude.{
  ℕ, zero, suc, ◌+◌, ◌-◌, ◌/◌, ◌%◌, ◌^◌, min, Bool, false, List, [], ◌∷◌, ◌++◌, ltb, ◌==◌,
  if◌then◌else◌, length, take, drop, replicate, be16, be32, Error, Result, ok, err, panic,
}
use rust_proxy.Anytls.Types.{waste, to_u8, Frame, encode_into, frame_header_size}

-- What `write_all` and `flush` of the connection answer to the next calls: success, or an error after a
-- part of the bytes is sent. Where the list ends every call succeeds.
pub data Reply : Type 0 where
  good : Reply
  bad : ℕ → Error → Reply

pub record Wire : Type 0 where
  pub replies : List Reply
  pub sent : List ℕ

abbrev pub Written : Type 0
Written = Result (Unit {0}) × Wire

unfoldable pub write_by : List Reply → List ℕ → List ℕ → Written
write_by [] out bs = (ok tt, record { replies = []; sent = out ++ bs })
write_by (good ∷ rest) out bs = (ok tt, record { replies = rest; sent = out ++ bs })
write_by (bad n e ∷ rest) out bs = (err e, record { replies = rest; sent = out ++ take n bs })

-- `flush` is a write of no bytes here.
abbrev pub write_all : List ℕ → Wire → Written
write_all bs w = write_by w.replies w.sent bs

abbrev pub flush : Wire → Written
flush w = write_by w.replies w.sent []

-- `?` on what was written.
abbrev pub and_then : Written → (Wire → Written) → Written
and_then (ok _, w) f = f w
and_then (err e, w) f = (err e, w)
and_then (panic, w) f = (panic, w)

-- An `i32` by its 32 bits, and `CHECK_MARK`, which is -1.
abbrev pub check_mark : ℕ
check_mark = 4294967295

-- `size as usize` of an `i32` extends the sign to 64 bits.
unfoldable pub as_usize : ℕ → ℕ
as_usize size = if ltb size 2147483648 then size else size + (2 ^ 64 - 2 ^ 32)

-- The zeros of a `Waste` frame, in parts of at most 1024.
abbrev pub zeros : ℕ → List ℕ
zeros n = replicate n 0

unfoldable pub write_zeros : ℕ → ℕ → Wire → Written
write_zeros zero remaining w = (ok tt, w)
write_zeros (suc fuel) remaining w =
    if ltb 0 remaining
    then (let chunk = min remaining 1024 in
        and_then (write_all (zeros chunk) w) (λ w'. write_zeros fuel (remaining - chunk) w'))
    else (ok tt, w)

-- The header that is written out in place.
abbrev pub waste_header : ℕ → List ℕ
waste_header size = to_u8 waste ∷ 0 ∷ 0 ∷ 0 ∷ 0 ∷ size / 256 % 256 ∷ size % 256 ∷ []

-- The second case of the loop: the last of the data, filled up to the size.
unfoldable pub padded : List ℕ → ℕ → List ℕ
padded bytes size =
    let padding_len = size - (length bytes + frame_header_size) in
    if ltb 0 padding_len
    then bytes ++ (to_u8 waste ∷ (be32 0 ++ (be16 (padding_len % 2 ^ 16) ++ zeros padding_len)))
    else bytes

-- One turn of the loop over the sizes: it goes on with what is left of the data, or it is over, by `break`
-- or by an error.
pub data Turn : Type 0 where
  goes_on : List ℕ → Wire → Turn
  over : Written → List ℕ → Turn

unfoldable pub turn_written : List ℕ → Written → Turn
turn_written left (ok _, w) = goes_on left w
turn_written left (err e, w) = over (err e, w) left
turn_written left (panic, w) = over (panic, w) left

unfoldable pub write_size : List ℕ → ℕ → Wire → Turn
write_size bytes size w =
    if ltb size (length bytes)
    then turn_written (drop size bytes) (write_all (take size bytes) w)
    else if ltb 0 (length bytes)
    then turn_written [] (write_all (padded bytes size) w)
    else turn_written []
        (and_then (write_all (waste_header size) w) (λ w'. write_zeros size size w'))

unfoldable pub turn : List ℕ → ℕ → Wire → Turn
turn bytes size w =
    if size == check_mark
    then (if length bytes == 0 then over (ok tt, w) bytes else goes_on bytes w)
    else write_size bytes (as_usize size) w

unfoldable pub write_sizes : List ℕ → List ℕ → Wire → Written × List ℕ
write_sizes [] bytes w = ((ok tt, w), bytes)
write_sizes (size ∷ sizes) bytes w = elim (turn bytes size w) [
  | goes_on left w' ↦ write_sizes sizes left w'
  | over out left ↦ (out, left)
]

unfoldable pub write_rest : Written × List ℕ → Written
write_rest (out, left) =
    and_then out (λ w. and_then (if length left == 0 then (ok tt, w) else write_all left w) flush)

-- `sizes` is what `generate_record_payload_sizes` has drawn for the packet.
unfoldable pub write_with_padding : List ℕ → List ℕ → Wire → Written
write_with_padding [] bytes w = and_then (write_all bytes w) flush
write_with_padding (size ∷ sizes) bytes w = write_rest (write_sizes (size ∷ sizes) bytes w)

-- The state of the sending side.
pub record Sender : Type 0 where
  pub buffering : Bool
  pub buffer : List ℕ
  pub send_padding : Bool
  pub pkt_counter : ℕ
  pub wire : Wire

-- The padding factory: its `stop`, and the sizes that it draws for a packet.
pub record Padding : Type 0 where
  pub stop : ℕ
  pub sizes : ℕ → List ℕ

abbrev pub Sent : Type 0
Sent = Result (Unit {0}) × Sender

abbrev pub on_wire : Sender → Written → Sent
on_wire s (r, w) = (r, record s { wire = w })

-- The bytes of the buffer and of the frame go out, the buffer being empty from here on.
unfoldable pub write_out : Padding → Sender → List ℕ → Sent
write_out p s bytes =
    let pkt = (s.pkt_counter + 1) % 2 ^ 32 in
    if s.send_padding
    then (if ltb pkt p.stop
        then on_wire (record s { pkt_counter = pkt })
            (write_with_padding (p.sizes pkt) bytes s.wire)
        else on_wire (record s { pkt_counter = pkt; send_padding = false })
            (and_then (write_all bytes s.wire) flush))
    else on_wire s (and_then (write_all bytes s.wire) flush)

unfoldable pub write_frame : Padding → Frame → Sender → Sent
write_frame p f s =
    let bytes = encode_into f [] in
    if s.buffering
    then (ok tt, record s { buffer = s.buffer ++ bytes })
    else write_out p (record s { buffer = [] }) (s.buffer ++ bytes)
