-- ===== src/Address/Parse.antt =====
-- src/address.rs: parsing and printing addresses and locations. A text is its bytes. `parse_ipv6` stands for
-- `str::parse::<Ipv6Addr>` and `print_ipv6` for its `Display`, both of the standard library.
pub mod Printed
pub mod Names
pub mod Calm
use rust_proxy.Prelude.{
  ℕ, zero, ◌+◌, ◌⊎◌, inl, inr, Bool, true, false, not, ◌&&◌, ◌||◌, Option, none, some, List, [],
  ◌∷◌, ◌++◌, ltb, leb, ◌==◌, if◌then◌else◌, length, Error, Result, ok, err, ◌>>=◌,
}
use rust_proxy.Decimal.{is_digit, parse_digits, parse_number, decimal}
use rust_proxy.Address.{Address, ipv4, ipv6, hostname, NetLocation, is_ipv6}

abbrev pub dot : ℕ
dot = 46

abbrev pub colon : ℕ
colon = 58

-- `str::parse::<Ipv4Addr>`: four parts between dots, each a byte of up to three digits with no zero in front.
unfoldable pub split_dots : List ℕ → List ℕ → List (List ℕ)
split_dots part [] = part ∷ []
split_dots part (b ∷ bs) =
    let rest = split_dots [] bs in
    let longer = split_dots (part ++ (b ∷ [])) bs in if b == dot then part ∷ rest else longer

unfoldable pub octet : List ℕ → Option ℕ
octet [] = none
octet (b ∷ []) = parse_digits 256 0 (b ∷ [])
octet (b ∷ c ∷ bs) =
    if (b == 48) || ltb 3 (length (b ∷ c ∷ bs)) then none else parse_digits 256 0 (b ∷ c ∷ bs)

unfoldable pub four_octets : List (List ℕ) → Option (List ℕ)
four_octets (a ∷ b ∷ c ∷ d ∷ []) = elim (octet a) [
  | none ↦ none
  | some w ↦ elim (octet b) [
    | none ↦ none
    | some x ↦ elim (octet c) [
      | none ↦ none
      | some y ↦ elim (octet d) [ none ↦ none | some z ↦ some (w ∷ x ∷ y ∷ z ∷ []) ]
    ]
  ]
]
four_octets _ = none

abbrev pub parse_ipv4 : List ℕ → Option (List ℕ)
parse_ipv4 s = four_octets (split_dots [] s)

-- What the loop of `Address::from` has found so far.
pub record Guess : Type 0 where
  pub dots : ℕ
  pub possible_ipv4 : Bool
  pub possible_ipv6 : Bool
  pub possible_hostname : Bool

abbrev pub start : Guess
start = record { dots = 0; possible_ipv4 = true; possible_ipv6 = true; possible_hostname = true }

abbrev pub is_hex_letter : ℕ → Bool
is_hex_letter c = (leb 65 c && leb c 70) || (leb 97 c && leb c 102)

-- One byte: the loop ends (`inl`), or goes on.
unfoldable pub guess_byte : ℕ → Guess → Guess ⊎ Guess
guess_byte c g =
    let g' = record g { possible_ipv6 = false; dots = g.dots + 1 } in
    if c == colon
    then inl (record g { possible_ipv4 = false; possible_hostname = false })
    else if c == dot
    then (if ltb 3 (g.dots + 1) then inl g' else inr g')
    else if is_hex_letter c
    then inr (record g { possible_ipv4 = false })
    else if not (is_digit c)
    then inl (record g { possible_ipv4 = false; possible_ipv6 = false })
    else inr g

unfoldable pub guess : List ℕ → Guess → Guess
guess [] g = g
guess (c ∷ cs) g = elim (guess_byte c g) [ inl g' ↦ g' | inr g' ↦ guess cs g' ]

-- `s.rfind(':')`, with what stands before and behind it.
unfoldable pub split_last : List ℕ → Option (List ℕ × List ℕ)
split_last [] = none
split_last (b ∷ bs) = elim (split_last bs) [
  | none ↦ if b == colon then some ([], bs) else none
  | some (before, behind) ↦ some (b ∷ before, behind)
]

-- The text of the address, the port, and whether only an IPv6 address will do.
unfoldable pub split_port : List ℕ → Option ℕ → List ℕ × Option ℕ × Bool
split_port s default_port = elim (split_last s) [
  | none ↦ (s, default_port, false)
  | some (before, behind) ↦ elim (parse_number 65536 behind) [
    | some port ↦ (before, some port, false)
    | none ↦ (s, default_port, true)
  ]
]

unfoldable pub with_port : Address → Option ℕ → Result NetLocation
with_port a none = err Error.other
with_port a (some port) = ok (record { address = a; port = port })

module _ (parse_ipv6 : List ℕ → Option (List ℕ)) where
  unfoldable pub as_hostname : List ℕ → Guess → Result Address
  as_hostname s g = if g.possible_hostname then ok (hostname s) else err Error.invalid_data

  unfoldable pub as_ipv6 : List ℕ → Guess → Result Address
  as_ipv6 s g = elim (parse_ipv6 s) [
    | none ↦ as_hostname s g
    | some addr ↦ if g.possible_ipv6 then ok (ipv6 addr) else as_hostname s g
  ]

  unfoldable pub as_ipv4 : List ℕ → Guess → Result Address
  as_ipv4 s g = elim (parse_ipv4 s) [
    | none ↦ as_ipv6 s g
    | some addr ↦ if g.possible_ipv4 && (g.dots == 3) then ok (ipv4 addr) else as_ipv6 s g
  ]

  -- `Address::from`
  unfoldable pub from : List ℕ → Result Address
  from s = as_ipv4 s (guess s start)

  unfoldable pub located : List ℕ × Option ℕ × Bool → Result NetLocation
  located (s, port, expect_ipv6) = do
    address ← from s
    if expect_ipv6 && not (is_ipv6 address) then err Error.other else with_port address port

  unfoldable pub from_str : List ℕ → Option ℕ → Result NetLocation
  from_str s default_port = located (split_port s default_port)

-- `Display` of the two types.
unfoldable pub print_ipv4 : List ℕ → List ℕ
print_ipv4 [] = []
print_ipv4 (n ∷ []) = decimal n
print_ipv4 (n ∷ m ∷ rest) = decimal n ++ (dot ∷ print_ipv4 (m ∷ rest))

unfoldable pub print_address : (List ℕ → List ℕ) → Address → List ℕ
print_address print_ipv6 (ipv4 octets) = print_ipv4 octets
print_address print_ipv6 (ipv6 octets) = print_ipv6 octets
print_address print_ipv6 (hostname name) = name

unfoldable pub print_location : (List ℕ → List ℕ) → NetLocation → List ℕ
print_location print_ipv6 l = print_address print_ipv6 l.address ++ (colon ∷ decimal l.port)
