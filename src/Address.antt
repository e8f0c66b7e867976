-- ===== src/Address.antt =====
-- src/address.rs: addresses and locations.
pub mod Parse
use rust_proxy.Prelude.{
  ℕ, List, [], ◌∷◌, Option, none, some, Bool, true, false, length, ◌≡◌, ◌<◌, All, IsByte,
}

-- An IPv4 address is its 4 octets and an IPv6 address its 16; a host name is its UTF-8 bytes.
pub data Address : Type 0 where
  ipv4 : List ℕ → Address
  ipv6 : List ℕ → Address
  hostname : List ℕ → Address

pub record NetLocation : Type 0 where
  pub address : Address
  pub port : ℕ

abbrev pub unspecified : NetLocation
unspecified = record { address = ipv4 (0 ∷ 0 ∷ 0 ∷ 0 ∷ []); port = 0 }

unfoldable pub is_ipv6 : Address → Bool
is_ipv6 (ipv6 octets) = true
is_ipv6 _ = false

-- `std::net::SocketAddr`
pub data SocketAddr : Type 0 where
  v4 : List ℕ → ℕ → SocketAddr
  v6 : List ℕ → ℕ → SocketAddr

-- The location that a socket address is.
unfoldable pub to_location : SocketAddr → NetLocation
to_location (v4 octets port) = record { address = ipv4 octets; port = port }
to_location (v6 octets port) = record { address = ipv6 octets; port = port }

unfoldable pub to_socket_addr_nonblocking : NetLocation → Option SocketAddr
to_socket_addr_nonblocking l = elim l.address [
  | ipv4 octets ↦ some (v4 octets l.port)
  | ipv6 octets ↦ some (v6 octets l.port)
  | hostname name ↦ none
]

-- What the types of `Ipv4Addr`, `Ipv6Addr` and `u16` guarantee.
abbrev pub IsSocketAddr : SocketAddr → Type 0
IsSocketAddr (v4 octets port) = (length octets ≡ 4) × All IsByte octets × (port < 65536)
IsSocketAddr (v6 octets port) = (length octets ≡ 16) × All IsByte octets × (port < 65536)
