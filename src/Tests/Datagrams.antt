-- ===== src/Tests/Datagrams.antt =====
-- src/hysteria2.rs: the theorems at concrete inputs.
use rust_proxy.Prelude.{
  ℕ, ◌+◌, ◌≤◌, ◌≡◌, refl, none, some, List, [], ◌∷◌, ◌++◌, arith, length, All, ok,
}
use rust_proxy.Address.{unspecified}
use rust_proxy.Hysteria2.Varint.{encode_varint, varint_at, varint_at-encode_varint}
use rust_proxy.Hysteria2.Fragments.{Header, FragmentedPacket, entry_of, receive, send_payload}
use rust_proxy.Hysteria2.Fragments.Reassembly.{joined, Progresses, fragment_of, receive-Progresses}
use rust_proxy.Hysteria2.Fragments.Sending.{datagrams, send_payload-joined}

varint_at-encode_varint_example :
    (bytes : List ℕ) × (encode_varint 16400 ≡ ok bytes)
    × (varint_at ((1 ∷ 2 ∷ []) ++ (bytes ++ (3 ∷ []))) 2 ≡ ok (16400, 2 + length bytes))
varint_at-encode_varint_example = varint_at-encode_varint 16400 (1 ∷ 2 ∷ []) (3 ∷ []) (omega arith)

abbrev parts : List (List ℕ)
parts = (1 ∷ 2 ∷ []) ∷ (3 ∷ []) ∷ []

-- The second part comes first.
abbrev half : FragmentedPacket
half = record {
  fragment_count = 2;
  fragment_received = 1;
  packet_len = 1;
  received = none ∷ some (3 ∷ []) ∷ [];
  remote_location = unspecified;
}

receive-Progresses_example :
    Progresses parts unspecified half 0
      (receive (some half) (fragment_of parts unspecified 0 (1 ∷ 2 ∷ [])))
receive-Progresses_example =
    unfold entry_of in
    receive-Progresses parts unspecified (some half) 0 (1 ∷ 2 ∷ []) (omega arith) (omega arith)
      (record {
        agrees = (refl, tt);
        counted = refl;
        received_lem = refl;
        waits = omega arith;
        place = refl;
      })
      refl

abbrev header : Header
header = record {
  session_id = 1;
  packet_id = 2;
  address_len_bytes = 1 ∷ [];
  address_bytes = 65 ∷ [];
}

send_payload-joined_example :
    (ps : List (List ℕ)) × (send_payload header 12 (1 ∷ 2 ∷ 3 ∷ [])
      ≡ ok (datagrams header (length ps) 0 ps))
    × (joined ps ≡ 1 ∷ 2 ∷ 3 ∷ [])
    × All (λ d. length d ≤ 12) (datagrams header (length ps) 0 ps)
send_payload-joined_example =
    send_payload-joined header 12 (1 ∷ 2 ∷ 3 ∷ []) (omega arith) (omega arith) (omega arith)
