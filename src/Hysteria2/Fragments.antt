-- ===== src/Hysteria2/Fragments.antt =====
-- src/hysteria2.rs: a datagram in fragments, sent by run_udp_remote_to_local_loop and put together by
-- run_udp_local_to_remote_loop.
pub mod Reassembly
pub mod Sending
use rust_proxy.Prelude.{
  ℕ, zero, suc, ◌+◌, ◌-◌, ◌*◌, ◌/◌, ◌%◌, ◌^◌, min, not, Option, none, some, List, [], ◌∷◌, ◌++◌,
  ltb, leb, ◌==◌, if◌then◌else◌, length, get_elem?, set, replicate, be16, be32, slice, Result, ok,
  panic, ◌>>=◌,
}
use mathlib.Core.Option
use rust_proxy.Address.{NetLocation}

pub record FragmentedPacket : Type 0 where
  pub fragment_count : ℕ
  pub fragment_received : ℕ
  pub packet_len : ℕ
  pub received : List (Option (List ℕ))
  pub remote_location : NetLocation

-- What a datagram says.
pub record Fragment : Type 0 where
  pub fragment_id : ℕ
  pub fragment_count : ℕ
  pub bytes : List ℕ
  pub location : NetLocation

-- `frag.as_ref().unwrap()` of each part.
unfoldable pub complete_payload : List (Option (List ℕ)) → Result (List ℕ)
complete_payload [] = ok []
complete_payload (none ∷ os) = panic
complete_payload (some bs ∷ os) = complete_payload os >>= λ rest. ok (bs ++ rest)

-- What comes of a fragment: a payload with its location, if it is the last one; and the entry of the
-- cache for its packet afterwards.
abbrev pub Received : Type 0
Received = Result (Option (List ℕ × NetLocation)) × Option FragmentedPacket

abbrev pub new_packet : Fragment → FragmentedPacket
new_packet f = record {
  fragment_count = f.fragment_count;
  fragment_received = 0;
  packet_len = 0;
  received = replicate f.fragment_count none;
  remote_location = f.location;
}

abbrev pub with_fragment : FragmentedPacket → Fragment → FragmentedPacket
with_fragment entry f = record entry {
  fragment_received = (entry.fragment_received + 1) % 2 ^ 8;
  packet_len = entry.packet_len + length f.bytes;
  received = set entry.received f.fragment_id (some f.bytes);
}

unfoldable pub completed : FragmentedPacket → Received
completed entry =
    if entry.fragment_received == entry.fragment_count
    then (
      complete_payload entry.received >>= (λ payload. ok (some (payload, entry.remote_location))),
      none,
    )
    else (ok none, some entry)

-- `entry.received[fragment_id as usize]`, which panics beyond the parts.
unfoldable pub stored : FragmentedPacket → Fragment → Option (Option (List ℕ)) → Received
stored entry f none = (panic, some entry)
stored entry f (some (some bs)) = (ok none, none)
stored entry f (some none) = completed (with_fragment entry f)

unfoldable pub joins : FragmentedPacket → Fragment → Received
joins entry f =
    if not (entry.fragment_count == f.fragment_count)
    then (ok none, none)
    else stored entry f (get_elem? entry.received f.fragment_id)

unfoldable pub entry_of : Option FragmentedPacket → Fragment → FragmentedPacket
entry_of none f = new_packet f
entry_of (some entry) f = entry

-- `cached` is what the cache holds for the packet's number.
unfoldable pub receive : Option FragmentedPacket → Fragment → Received
receive cached f =
    if f.fragment_count == 0
    then (ok none, cached)
    else if f.fragment_count == 1
    then (ok (some (f.bytes, f.location)), cached)
    else joins (entry_of cached f) f

-- The sending side. A datagram's header, but for the numbers of the fragment.
pub record Header : Type 0 where
  pub session_id : ℕ
  pub packet_id : ℕ
  pub address_len_bytes : List ℕ
  pub address_bytes : List ℕ

abbrev pub header_overhead : Header → ℕ
header_overhead h = 4 + 2 + 1 + 1 + length h.address_len_bytes + length h.address_bytes

abbrev pub datagram : Header → ℕ → ℕ → List ℕ → List ℕ
datagram h fragment_id fragment_count payload =
    be32 h.session_id
    ++ (be16 h.packet_id
        ++ (fragment_id ∷ fragment_count ∷ (h.address_len_bytes ++ (h.address_bytes ++ payload))))

-- `div_ceil`
abbrev pub div_ceil : ℕ → ℕ → ℕ
div_ceil n d = (n + (d - 1)) / d

abbrev pub part : List ℕ → ℕ → ℕ → List ℕ
part payload available fragment_id =
    let start = fragment_id * available in
    slice payload start (min (start + available) (length payload))

-- `for fragment_id in 0..fragment_count`, from `fragment_id` on.
unfoldable pub send_parts : Header → List ℕ → ℕ → ℕ → ℕ → ℕ → List (List ℕ)
send_parts h payload available fragment_count zero fragment_id = []
send_parts h payload available fragment_count (suc more) fragment_id =
    datagram h fragment_id fragment_count (part payload available fragment_id)
    ∷ send_parts h payload available fragment_count more (fragment_id + 1)

-- The datagrams of a payload; the assertion on the size panics.
unfoldable pub send_payload : Header → ℕ → List ℕ → Result (List (List ℕ))
send_payload h max_datagram_size payload =
    let overhead = header_overhead h in
    let available = max_datagram_size - overhead in
    let fragment_count = div_ceil (length payload) available % 2 ^ 8 in
    if not (ltb overhead max_datagram_size)
    then panic
    else if leb (overhead + length payload) max_datagram_size
    then ok (datagram h 0 1 payload ∷ [])
    else ok (send_parts h payload available fragment_count fragment_count 0)
