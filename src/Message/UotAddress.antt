-- ===== src/Message/UotAddress.antt =====
-- src/message_stream.rs, parse_uot_address and write_uot_address: the address of a UoT packet.
use rust_proxy.Prelude.{
  ℕ, ◌+◌, ◌≤◌, ◌<◌, ◌≡◌, ◌≢◌, ◌⊎◌, inl, inr, Option, none, some, List, [], ◌∷◌, ◌++◌, arith, ltb,
  ◌==◌, if◌then◌else◌, length, get_or, length-append, be16, from_be16, from_be16-be16, slice,
  get_or-append_lt, slice-append_le, Error, Result, ok, err, panic,
}
use rust_proxy.Address.{
  ipv4, ipv6, hostname, NetLocation, SocketAddr, v4, v6, to_location, IsSocketAddr,
}
use rust_proxy.Utf8.{is_utf8}

abbrev pub uot_atyp_ipv4 : ℕ
uot_atyp_ipv4 = 0

abbrev pub uot_atyp_ipv6 : ℕ
uot_atyp_ipv6 = 1

abbrev pub uot_atyp_domain : ℕ
uot_atyp_domain = 2

-- `data[i]`; the reads below stand behind a test of the length.
abbrev at : List ℕ → ℕ → ℕ
at bytes i = get_or bytes i 0

abbrev port_at : List ℕ → ℕ → ℕ
port_at bytes i = from_be16 (at bytes i) (at bytes (i + 1))

-- The arms of the match on `atyp`.
unfoldable pub parse_ipv4 : List ℕ → Result (Option (NetLocation × ℕ))
parse_ipv4 bytes =
    if ltb (length bytes) 7
    then ok none
    else ok (some (record { address = ipv4 (slice bytes 1 5); port = port_at bytes 5 }, 7))

unfoldable pub parse_ipv6 : List ℕ → Result (Option (NetLocation × ℕ))
parse_ipv6 bytes =
    if ltb (length bytes) 19
    then ok none
    else ok (some (record { address = ipv6 (slice bytes 1 17); port = port_at bytes 17 }, 19))

unfoldable pub parse_domain : List ℕ → Result (Option (NetLocation × ℕ))
parse_domain bytes =
    if ltb (length bytes) 2
    then ok none
    else (let domain_len = at bytes 1 in
        let total_len = 1 + 1 + domain_len + 2 in
        let domain = slice bytes 2 (2 + domain_len) in
        let port = port_at bytes (2 + domain_len) in
        if ltb (length bytes) total_len
        then ok none
        else if is_utf8 domain
        then ok (some (record { address = hostname domain; port = port }, total_len))
        else err Error.other)

unfoldable pub parse_uot_address : List ℕ → Result (Option (NetLocation × ℕ))
parse_uot_address bytes =
    if length bytes == 0
    then ok none
    else (let atyp = at bytes 0 in
        if atyp == uot_atyp_ipv4
        then parse_ipv4 bytes
        else if atyp == uot_atyp_ipv6
        then parse_ipv6 bytes
        else if atyp == uot_atyp_domain
        then parse_domain bytes
        else err Error.other)

-- What it writes at the front of the buffer; the number of bytes written is its length.
unfoldable pub write_uot_address : SocketAddr → List ℕ
write_uot_address (v4 octets port) = uot_atyp_ipv4 ∷ (octets ++ be16 port)
write_uot_address (v6 octets port) = uot_atyp_ipv6 ∷ (octets ++ be16 port)

pub length-write_uot_address :
    (a : SocketAddr)
    → IsSocketAddr a
    → (length (write_uot_address a) ≡ 7) ⊎ (length (write_uot_address a) ≡ 19)
unfolding write_uot_address
length-write_uot_address (v4 octets port) h = inl (omega (arith, length-append octets (be16 port)))
length-write_uot_address (v6 octets port) h = inr (omega (arith, length-append octets (be16 port)))

-- A written address is read back, whatever follows it, with the number of bytes that it takes.
pub parse_uot_address-write_uot_address :
    (a : SocketAddr) (rest : List ℕ)
    → IsSocketAddr a
    → parse_uot_address (write_uot_address a ++ rest)
      ≡ ok (some (to_location a, length (write_uot_address a)))
unfolding parse_uot_address parse_ipv4 parse_ipv6 write_uot_address to_location
parse_uot_address-write_uot_address (v4 (a ∷ b ∷ c ∷ d ∷ []) port) rest h =
    ground (arith, from_be16-be16 port)
parse_uot_address-write_uot_address
      (v6 (a ∷ b ∷ c ∷ d ∷ e ∷ f ∷ g ∷ i ∷ j ∷ k ∷ l ∷ m ∷ n ∷ o ∷ p ∷ q ∷ []) port) rest h =
    ground (arith, from_be16-be16 port)
parse_uot_address-write_uot_address _ rest h = absurd (omega arith)

module _ (bytes more : List ℕ) (l : NetLocation) (n : ℕ) where
  parse_ipv4-append :
      parse_ipv4 bytes ≡ ok (some (l, n)) → parse_ipv4 (bytes ++ more) ≡ ok (some (l, n))
  unfolding parse_ipv4
  parse_ipv4-append h = ground (
    arith,
    length-append bytes more,
    get_or-append_lt 5 bytes more 0,
    get_or-append_lt 6 bytes more 0,
    slice-append_le bytes more 1 5,
  )

  parse_ipv6-append :
      parse_ipv6 bytes ≡ ok (some (l, n)) → parse_ipv6 (bytes ++ more) ≡ ok (some (l, n))
  unfolding parse_ipv6
  parse_ipv6-append h = ground (
    arith,
    length-append bytes more,
    get_or-append_lt 17 bytes more 0,
    get_or-append_lt 18 bytes more 0,
    slice-append_le bytes more 1 17,
  )

  parse_domain-append :
      parse_domain bytes ≡ ok (some (l, n)) → parse_domain (bytes ++ more) ≡ ok (some (l, n))
  unfolding parse_domain
  parse_domain-append h = ground (
    arith,
    length-append bytes more,
    get_or-append_lt 1 bytes more 0,
    get_or-append_lt (2 + at bytes 1) bytes more 0,
    get_or-append_lt (2 + at bytes 1 + 1) bytes more 0,
    slice-append_le bytes more 2 (2 + at bytes 1),
  )

-- More input does not change an address that was read.
pub parse_uot_address-append :
    (bytes more : List ℕ) (l : NetLocation) (n : ℕ)
    → parse_uot_address bytes ≡ ok (some (l, n))
    → parse_uot_address (bytes ++ more) ≡ ok (some (l, n))
unfolding parse_uot_address
parse_uot_address-append bytes more l n h = ground (
  arith,
  length-append bytes more,
  get_or-append_lt 0 bytes more 0,
  parse_ipv4-append bytes more l n,
  parse_ipv6-append bytes more l n,
  parse_domain-append bytes more l n,
)

-- An address that is read lies within the input.
pub parse_uot_address-le :
    (bytes : List ℕ) (l : NetLocation) (n : ℕ)
    → parse_uot_address bytes ≡ ok (some (l, n))
    → (n ≤ length bytes) × (3 < n)
unfolding parse_uot_address parse_ipv4 parse_ipv6 parse_domain
parse_uot_address-le bytes l n h = ground arith

pub parse_uot_address-ne-panic : (bytes : List ℕ) → parse_uot_address bytes ≢ panic
unfolding parse_uot_address parse_ipv4 parse_ipv6 parse_domain
parse_uot_address-ne-panic bytes h = ground arith

module _ (bytes more : List ℕ) (l : NetLocation) (n : ℕ) where
  parse_ipv4_short :
      parse_ipv4 bytes ≡ ok none → parse_ipv4 (bytes ++ more) ≡ ok (some (l, n)) → length bytes < n
  unfolding parse_ipv4
  parse_ipv4_short h k = ground (arith, length-append bytes more)

  parse_ipv6_short :
      parse_ipv6 bytes ≡ ok none → parse_ipv6 (bytes ++ more) ≡ ok (some (l, n)) → length bytes < n
  unfolding parse_ipv6
  parse_ipv6_short h k = ground (arith, length-append bytes more)

  parse_domain_short :
      parse_domain bytes ≡ ok none
      → parse_domain (bytes ++ more) ≡ ok (some (l, n))
      → length bytes < n
  unfolding parse_domain
  parse_domain_short h k = ground (arith, length-append bytes more, get_or-append_lt 1 bytes more 0)

-- An address that needs more input reaches behind the bytes that are there.
pub parse_uot_address_short :
    (bytes more : List ℕ) (l : NetLocation) (n : ℕ)
    → parse_uot_address bytes ≡ ok none
    → parse_uot_address (bytes ++ more) ≡ ok (some (l, n))
    → length bytes < n
parse_uot_address_short [] more l n h k = omega (arith, parse_uot_address-le more l n k)
parse_uot_address_short (x ∷ xs) more l n h k =
    unfold parse_uot_address in
    ground (
      arith,
      parse_ipv4_short (x ∷ xs) more l n,
      parse_ipv6_short (x ∷ xs) more l n,
      parse_domain_short (x ∷ xs) more l n,
    )

module _ (bytes more : List ℕ) (e : Error) where
  parse_ipv4_calm : parse_ipv4 bytes ≢ err e
  unfolding parse_ipv4
  parse_ipv4_calm h = ground arith

  parse_ipv6_calm : parse_ipv6 bytes ≢ err e
  unfolding parse_ipv6
  parse_ipv6_calm h = ground arith

  parse_domain-append_err : parse_domain bytes ≡ err e → parse_domain (bytes ++ more) ≡ err e
  unfolding parse_domain
  parse_domain-append_err h = ground (
    arith,
    length-append bytes more,
    get_or-append_lt 1 bytes more 0,
    slice-append_le bytes more 2 (2 + at bytes 1),
  )

-- More input does not mend an address that is none.
pub parse_uot_address-append_err :
    (bytes more : List ℕ) (e : Error)
    → parse_uot_address bytes ≡ err e
    → parse_uot_address (bytes ++ more) ≡ err e
parse_uot_address-append_err [] more e h = unfold parse_uot_address in ground (arith, h)
parse_uot_address-append_err (x ∷ xs) more e h =
    unfold parse_uot_address in
    ground (
      arith,
      parse_ipv4_calm (x ∷ xs) more e,
      parse_ipv6_calm (x ∷ xs) more e,
      parse_domain-append_err (x ∷ xs) more e,
    )
