-- ===== src/Hysteria2/Header.antt =====
-- src/hysteria2.rs, read_varint and handle_tcp_header: the request at the start of a TCP stream.
pub mod Numbers
pub mod Requests
use rust_proxy.Prelude.{
  ℕ, ◌-◌, ◌/◌, ◌%◌, not, Option, none, some, List, ◌∷◌, ltb, ◌==◌, if◌then◌else◌, length, Arrival,
  Error, Result, ok, err, panic, ◌>>=◌, ready,
}
use rust_proxy.Utf8.{is_utf8}
use rust_proxy.Address.{NetLocation}
use rust_proxy.Address.Parse.{from_str}
use rust_proxy.Reader.{StreamReader, Out, read_u8, read_slice}
use rust_proxy.Anytls.Server.{awaited}
use rust_proxy.Hysteria2.Varint.{num_bytes, shift_in}

unfoldable pub value_of : ℕ → StreamReader → List Arrival → Out ℕ
value_of first_byte r es =
    let n = num_bytes (first_byte / 64) in
    if ltb 1 n
    then awaited (read_slice (n - 1) r es)
        (λ remaining r' es'. some (ready (ok (shift_in (first_byte % 64) remaining)), r', es'))
    else some (ready (ok (first_byte % 64)), r, es)

unfoldable pub read_varint : StreamReader → List Arrival → Out ℕ
read_varint r es = awaited (read_u8 r es) value_of

abbrev pub frame_type_tcp_request : ℕ
frame_type_tcp_request = 1025

-- `return Err`.
abbrev pub fails_with : {A : Type 0} → Error → StreamReader → List Arrival → Out A
fails_with e r es = some (ready (err e), r, es)

-- The answer to a request: a status, an empty message and the padding that was drawn.
abbrev pub response_bytes : List ℕ → List ℕ
response_bytes padding = 0 ∷ 0 ∷ length padding ∷ padding

-- `send` is the loop that writes the response.
module _ (parse_ipv6 : List ℕ → Option (List ℕ)) (send : List ℕ → Result (Unit {0}))
    (padding : List ℕ) where
  unfoldable pub respond : NetLocation → StreamReader → List Arrival → Out NetLocation
  respond location r es = some (ready (send (response_bytes padding) >>= λ _. ok location), r, es)

  unfoldable pub skip_padding : NetLocation → ℕ → StreamReader → List Arrival → Out NetLocation
  skip_padding location padding_len r es =
      if ltb 4096 padding_len
      then fails_with Error.other r es
      else awaited (read_slice padding_len r es) (λ _ r' es'. respond location r' es')

  unfoldable pub with_location : Result NetLocation → StreamReader → List Arrival → Out NetLocation
  with_location (ok location) r es = awaited (read_varint r es) (skip_padding location)
  with_location (err e) r es = fails_with e r es
  with_location panic r es = some (ready panic, r, es)

  unfoldable pub with_address : List ℕ → StreamReader → List Arrival → Out NetLocation
  with_address address_bytes r es =
      if not (is_utf8 address_bytes)
      then fails_with Error.other r es
      else with_location (from_str parse_ipv6 address_bytes none) r es

  unfoldable pub with_address_len : ℕ → StreamReader → List Arrival → Out NetLocation
  with_address_len address_len r es =
      if ltb 2048 address_len
      then fails_with Error.other r es
      else awaited (read_slice address_len r es) with_address

  unfoldable pub with_request_id : ℕ → StreamReader → List Arrival → Out NetLocation
  with_request_id tcp_request_id r es =
      if not (tcp_request_id == frame_type_tcp_request)
      then fails_with Error.other r es
      else awaited (read_varint r es) with_address_len

  unfoldable pub handle_tcp_header : StreamReader → List Arrival → Out NetLocation
  handle_tcp_header r es = awaited (read_varint r es) with_request_id
