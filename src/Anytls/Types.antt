-- ===== src/Anytls/Types.antt =====
-- src/anytls/types.rs: commands, frames and the frame codec.
pub mod Codec
use rust_proxy.Prelude.{
  ℕ, ◌+◌, ◌%◌, ◌^◌, Option, none, some, List, [], ◌∷◌, ◌++◌, length, get_or, take, drop, ltb, ◌==◌,
  if◌then◌else◌, Result, ok, err, Error, ◌>>=◌, be16, be32, from_be16, from_be32,
}
use Error.{invalid_data}

abbrev pub frame_header_size : ℕ
frame_header_size = 7

pub data Command : Type 0 where
  waste syn psh fin settings alert update_padding_scheme syn_ack : Command
  heart_request heart_response server_settings : Command

-- `cmd as u8`
unfoldable pub to_u8 : Command → ℕ
to_u8 waste = 0
to_u8 syn = 1
to_u8 psh = 2
to_u8 fin = 3
to_u8 settings = 4
to_u8 alert = 5
to_u8 update_padding_scheme = 6
to_u8 syn_ack = 7
to_u8 heart_request = 8
to_u8 heart_response = 9
to_u8 server_settings = 10

unfoldable pub try_from : ℕ → Result Command
try_from value =
    if value == 0
    then ok waste
    else if value == 1
    then ok syn
    else if value == 2
    then ok psh
    else if value == 3
    then ok fin
    else if value == 4
    then ok settings
    else if value == 5
    then ok alert
    else if value == 6
    then ok update_padding_scheme
    else if value == 7
    then ok syn_ack
    else if value == 8
    then ok heart_request
    else if value == 9
    then ok heart_response
    else if value == 10
    then ok server_settings
    else err invalid_data

pub record Frame : Type 0 where
  pub cmd : Command
  pub stream_id : ℕ
  pub payload : List ℕ

abbrev pub control : Command → ℕ → Frame
control c id = record { cmd = c; stream_id = id; payload = [] }

abbrev pub with_data : Command → ℕ → List ℕ → Frame
with_data c id bytes = record { cmd = c; stream_id = id; payload = bytes }

abbrev pub data_frame : ℕ → List ℕ → Frame
data_frame id bytes = with_data psh id bytes

-- `self.data.len() as u16` keeps the low 16 bits.
unfoldable pub encode_into : Frame → List ℕ → List ℕ
encode_into f buf =
    buf ++ (to_u8 f.cmd ∷ (be32 f.stream_id ++ (be16 (length f.payload % 2 ^ 16) ++ f.payload)))

-- The bytes of the header by their index.
unfoldable pub decode_header : List ℕ → Result (Command × ℕ × ℕ)
decode_header header = do
  cmd ← try_from (get_or header 0 0)
  let stream_id =
      from_be32 (get_or header 1 0) (get_or header 2 0) (get_or header 3 0) (get_or header 4 0)
  let len = from_be16 (get_or header 5 0) (get_or header 6 0)
  ok (cmd, stream_id, len)

-- The frame, if the buffer holds a whole one, and the buffer afterwards.
unfoldable pub decode : List ℕ → Result (Option Frame × List ℕ)
unfolding decode_header
decode buf =
    if ltb (length buf) frame_header_size
    then ok (none, buf)
    else (decode_header (take frame_header_size buf) >>= λ (cmd, stream_id, data_len).
        let total_len = frame_header_size + data_len in
        let body = drop frame_header_size buf in
        if ltb (length buf) total_len
        then ok (none, buf)
        else if ltb 0 data_len
        then ok (some (with_data cmd stream_id (take data_len body)), drop data_len body)
        else ok (some (with_data cmd stream_id []), body))
