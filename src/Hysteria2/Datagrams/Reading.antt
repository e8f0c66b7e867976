-- ===== src/Hysteria2/Datagrams/Reading.antt =====
-- src/hysteria2.rs: a datagram in the format that the server sends is read as what it says.
use rust_proxy.Prelude.{
  ℕ, ◌+◌, ◌-◌, ◌^◌, ◌≤◌, ◌<◌, ◌≡◌, refl, sym, ap, ◌∙◌, subst, true, false, Option, none, some, List,
  [], ◌∷◌, ◌++◌, arith, ltb, ◌==◌, length, drop, length-append, take-append, drop-append, be16,
  be32, from_be16-be16, from_be32-be32, slice, drop-drop, ok,
}
use rust_proxy.Address.{NetLocation}
use rust_proxy.Hysteria2.Varint.{varint_at, encode_varint, varint_at-encode_varint}
use rust_proxy.Hysteria2.Fragments.{Header, datagram}
use rust_proxy.Utf8.{is_utf8}
use rust_proxy.Address.Parse.{from_str}
use rust_proxy.Hysteria2.Datagrams.{parse_datagram, with_address, with_location}

-- The numbers of the fragment and of the session are those that their bytes can say.
module _ (parse_ipv6 : List ℕ → Option (List ℕ)) where
  located_lem :
      (h : Header) (i n : ℕ) (rest payload : List ℕ) (location : NetLocation)
      → h.session_id < 2 ^ 32
      → h.packet_id < 2 ^ 16
      → with_location parse_ipv6
          (be32 h.session_id ++ (be16 h.packet_id ++ (i ∷ n ∷ rest)))
          payload
          (ok location)
        ≡ ok (
            some (record {
              session_id = h.session_id;
              packet_id = h.packet_id;
              fragment = record {
                fragment_id = i;
                fragment_count = n;
                bytes = payload;
                location = location;
              };
            }))
  unfolding with_location
  located_lem h i n rest payload location hs hp =
      rw (from_be32-be32 h.session_id hs, from_be16-be16 h.packet_id hp) refl

  with_address_lem :
      (front address payload : List ℕ)
      → 0 < length address
      → length address ≤ 2048
      → is_utf8 address ≡ true
      → (let received = front ++ (address ++ payload) in
          with_address parse_ipv6 received (length address, length front)
          ≡ with_location parse_ipv6 received payload (from_str parse_ipv6 address none))
  unfolding with_address
  with_address_lem front address payload l u t =
      let some_address : (length address == 0) ≡ false = ground arith in
      let short : ltb 2048 (length address) ≡ false = ground arith in
      let whole : ltb (length (front ++ (address ++ payload))) (length front + length address)
          ≡ false =
        ground (arith, length-append front (address ++ payload), length-append address payload) in
      let n : length front + length address - length front ≡ length address = omega arith in
      let text : slice (front ++ (address ++ payload)) (length front)
            (length front + length address)
          ≡ address =
        rw (drop-append front (address ++ payload), n) (take-append address payload) in
      let behind : drop (length front + length address) (front ++ (address ++ payload)) ≡ payload =
        sym (drop-drop (length address) (length front) (front ++ (address ++ payload)))
        ∙ rw (drop-append front (address ++ payload)) (drop-append address payload) in
      rw (some_address, short, whole, text, t, behind) refl

  parse_of :
      (received : List ℕ) (at : ℕ × ℕ)
      → 9 ≤ length received
      → varint_at received 8 ≡ ok at
      → parse_datagram parse_ipv6 received ≡ with_address parse_ipv6 received at
  unfolding parse_datagram
  parse_of received at l e =
      let long : ltb (length received) 9 ≡ false = ground arith in rw (long, e) refl

-- A datagram in the format of the protocol, for a location that is written as a text that from_str parses as it,
-- is read as what it says, whatever the payload is.
pub parse_datagram-datagram :
    (parse_ipv6 : List ℕ → Option (List ℕ)) (h : Header) (i n : ℕ) (payload : List ℕ)
    (location : NetLocation)
    → h.session_id < 2 ^ 32
    → h.packet_id < 2 ^ 16
    → encode_varint (length h.address_bytes) ≡ ok h.address_len_bytes
    → 0 < length h.address_bytes
    → length h.address_bytes ≤ 2048
    → is_utf8 h.address_bytes ≡ true
    → from_str parse_ipv6 h.address_bytes none ≡ ok location
    → parse_datagram parse_ipv6 (datagram h i n payload)
      ≡ ok (
          some (record {
            session_id = h.session_id;
            packet_id = h.packet_id;
            fragment = record {
              fragment_id = i;
              fragment_count = n;
              bytes = payload;
              location = location;
            };
          }))
parse_datagram-datagram parse_ipv6 h i n payload location hs hp encodes l u t parses =
    let before : List ℕ = be32 h.session_id ++ (be16 h.packet_id ++ (i ∷ n ∷ [])) in
    let lens = h.address_len_bytes in
    let address = h.address_bytes in
    let (bytes, e, k) =
      varint_at-encode_varint (length address) before (address ++ payload) (omega arith) in
    let same : bytes ≡ lens = let z : ok bytes ≡ ok lens = sym e ∙ encodes in cc in
    let at : varint_at (datagram h i n payload) 8 ≡ ok (length address, length (before ++ lens)) =
      subst
        (λ b.
          varint_at (before ++ (b ++ (address ++ payload))) 8
          ≡ ok (length address, length (before ++ b)))
        same (k ∙ ap (λ m. ok (length address, m)) (sym (length-append before bytes))) in
    let long : 9 ≤ length (datagram h i n payload) =
      omega (arith, length-append lens (address ++ payload), length-append address payload) in
    parse_of parse_ipv6 (datagram h i n payload) (length address, length (before ++ lens)) long at
    ∙ (with_address_lem parse_ipv6 (before ++ lens) address payload l u t
        ∙ (ap (with_location parse_ipv6 (datagram h i n payload) payload) parses
            ∙ located_lem parse_ipv6 h i n (lens ++ (address ++ payload)) payload location hs hp))
