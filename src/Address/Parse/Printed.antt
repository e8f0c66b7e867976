-- ===== src/Address/Parse/Printed.antt =====
-- src/address.rs: an IPv4 location that is printed is parsed as itself.
use rust_proxy.Prelude.{
  ℕ, zero, suc, ◌≤◌, ◌<◌, ◌≡◌, refl, sym, ap, ◌∙◌, inr, true, false, Option, none, some, List, [],
  ◌∷◌, ◌++◌, append-nil, append_assoc, arith, ltb, ◌==◌, length, IsByte, All, ok,
}
use rust_proxy.Decimal.{
  IsDigit, is_digit, parse_digits, parse_number, digits, decimal, parse_digits-digits,
  digits-IsDigit, digits-first, parse_number-decimal, length-digits,
}
use rust_proxy.Address.{ipv4, is_ipv6}
use rust_proxy.Address.Parse.{
  dot, colon, split_dots, octet, four_octets, parse_ipv4, Guess, start, is_hex_letter, guess_byte,
  guess, as_ipv4, from, split_last, split_port, with_port, located, from_str, print_ipv4,
  print_address, print_location,
}

guess_byte-digit : (x : ℕ) (g : Guess) → IsDigit x → guess_byte x g ≡ inr g
unfolding guess_byte
guess_byte-digit x g (l, u) =
    let not_colon : (x == colon) ≡ false = ground arith in
    let not_dot : (x == dot) ≡ false = ground arith in
    let not_letter : is_hex_letter x ≡ false = ground arith in
    let digit : is_digit x ≡ true = ground arith in rw (not_colon, not_dot, not_letter, digit) refl

guess-digits : (xs ys : List ℕ) (g : Guess) → All IsDigit xs → guess (xs ++ ys) g ≡ guess ys g
unfolding guess
guess-digits [] ys g h = refl
guess-digits (x ∷ xs) ys g (d, h) = rw (guess_byte-digit x g d, guess) (guess-digits xs ys g h)

split_dots-digits :
    (part xs ys : List ℕ)
    → All IsDigit xs
    → split_dots part (xs ++ (dot ∷ ys)) ≡ (part ++ xs) ∷ split_dots [] ys
unfolding split_dots
split_dots-digits part [] ys h = rw (append-nil part) refl
split_dots-digits part (x ∷ xs) ys ((l, u), h) =
    let not_dot : (x == dot) ≡ false = ground arith in
    rw not_dot
      (split_dots-digits (part ++ (x ∷ [])) xs ys h ∙ rw (append_assoc part (x ∷ []) xs) refl)

split_dots_last : (part xs : List ℕ) → All IsDigit xs → split_dots part xs ≡ (part ++ xs) ∷ []
unfolding split_dots
split_dots_last part [] h = rw (append-nil part) refl
split_dots_last part (x ∷ xs) ((l, u), h) =
    let not_dot : (x == dot) ≡ false = ground arith in
    rw not_dot (split_dots_last (part ++ (x ∷ [])) xs h ∙ rw (append_assoc part (x ∷ []) xs) refl)

-- The text of a byte is not empty, and starts with a zero only where it is one.
octet_of :
    (n : ℕ) (xs : List ℕ)
    → parse_digits 256 0 xs ≡ some n
    → length xs ≤ 3
    → ((b : ℕ) × (bs : List ℕ) × (xs ≡ b ∷ bs) × (48 < b))
    → octet xs ≡ some n
unfolding octet
octet_of n [] e l (b, bs, q, f) = absurd cc
octet_of n (x ∷ []) e l f = e
octet_of n (x ∷ y ∷ ys) e l (b, bs, q, f) =
    let same : x ≡ b = cc in
    let not_zero : (x == 48) ≡ false = ground arith in
    let short : ltb 3 (length (x ∷ y ∷ ys)) ≡ false = ground arith in rw (not_zero, short) e

octet-decimal : (n : ℕ) → n < 256 → octet (decimal n) ≡ some n
unfolding octet digits parse_digits
octet-decimal zero h = refl
octet-decimal (suc n) h =
    let (b, bs, e, l, u) = digits-first (suc n) (suc n) (omega arith) (omega arith) in
    octet_of (suc n) (decimal (suc n)) (parse_digits-digits 256 (suc n) (suc n) (omega arith) h)
      (length-digits 2 (suc n) (suc n) (omega arith) (omega arith)) (b, bs, e, l)

four_octets-some :
    (s t u v : List ℕ) (a b c d : ℕ)
    → octet s ≡ some a
    → octet t ≡ some b
    → octet u ≡ some c
    → octet v ≡ some d
    → four_octets (s ∷ t ∷ u ∷ v ∷ []) ≡ some (a ∷ b ∷ c ∷ d ∷ [])
unfolding four_octets
four_octets-some s t u v a b c d e f g h =
    rw (e, four_octets) (rw (f, four_octets) (rw (g, four_octets) (rw h refl)))

module _ (a b c d : ℕ) where
  abbrev printed : List ℕ
  printed = print_ipv4 (a ∷ b ∷ c ∷ d ∷ [])

  printed_lem :
      printed ≡ decimal a ++ (dot ∷ (decimal b ++ (dot ∷ (decimal c ++ (dot ∷ decimal d)))))
  unfolding print_ipv4
  printed_lem = refl

  abbrev dotted : ℕ → Guess
  dotted n = record {
    dots = n;
    possible_ipv4 = true;
    possible_ipv6 = false;
    possible_hostname = true;
  }

  guess-printed : guess printed start ≡ dotted 3
  unfolding guess guess_byte
  guess-printed = rw printed_lem (
      guess-digits (decimal a) _ start (digits-IsDigit a a)
      ∙ (guess-digits (decimal b) _ (dotted 1) (digits-IsDigit b b)
          ∙ (guess-digits (decimal c) _ (dotted 2) (digits-IsDigit c c)
              ∙ (ap (λ t. guess t (dotted 3)) (sym (append-nil (decimal d)))
                  ∙ guess-digits (decimal d) [] (dotted 3) (digits-IsDigit d d)))))

  parse_ipv4-printed :
      a < 256 → b < 256 → c < 256 → d < 256 → parse_ipv4 printed ≡ some (a ∷ b ∷ c ∷ d ∷ [])
  parse_ipv4-printed ha hb hc hd =
      let parts : split_dots [] printed ≡ decimal a ∷ decimal b ∷ decimal c ∷ decimal d ∷ [] =
        rw printed_lem (
          split_dots-digits [] (decimal a) _ (digits-IsDigit a a)
          ∙ ap (λ t. decimal a ∷ t)
              (split_dots-digits [] (decimal b) _ (digits-IsDigit b b)
                ∙ ap (λ t. decimal b ∷ t)
                    (split_dots-digits [] (decimal c) _ (digits-IsDigit c c)
                      ∙ ap (λ t. decimal c ∷ t)
                          (split_dots_last [] (decimal d) (digits-IsDigit d d))))) in
      ap four_octets parts
      ∙ four_octets-some _ _ _ _ a b c d (octet-decimal a ha) (octet-decimal b hb)
          (octet-decimal c hc) (octet-decimal d hd)

no_colon : (xs : List ℕ) → All IsDigit xs → split_last xs ≡ none
unfolding split_last
no_colon [] h = refl
no_colon (x ∷ xs) ((l, u), h) =
    let n : (x == colon) ≡ false = ground arith in rw (no_colon xs h, n) refl

split_last-append :
    (xs ys : List ℕ) → split_last ys ≡ none → split_last (xs ++ (colon ∷ ys)) ≡ some (xs, ys)
unfolding split_last
split_last-append [] ys h = rw h refl
split_last-append (x ∷ xs) ys h = rw (split_last-append xs ys h) refl

port_of :
    (text before behind : List ℕ) (port : ℕ) (default_port : Option ℕ)
    → split_last text ≡ some (before, behind)
    → parse_number 65536 behind ≡ some port
    → split_port text default_port ≡ (before, some port, false)
unfolding split_port
port_of text before behind port default_port e f = rw (e, split_port) (rw f refl)

-- The port that stands behind the last colon.
pub split_port-print :
    (s : List ℕ) (port : ℕ) (default_port : Option ℕ)
    → port < 65536
    → split_port (s ++ (colon ∷ decimal port)) default_port ≡ (s, some port, false)
split_port-print s port default_port h =
    port_of (s ++ (colon ∷ decimal port)) s (decimal port) port default_port
      (split_last-append s (decimal port) (no_colon (decimal port) (digits-IsDigit port port)))
      (parse_number-decimal 65536 port h)

module _ (parse_ipv6 : List ℕ → Option (List ℕ)) where
  from_ipv4 :
      (s addr : List ℕ) (g : Guess)
      → parse_ipv4 s ≡ some addr
      → g.possible_ipv4 ≡ true
      → g.dots ≡ 3
      → as_ipv4 parse_ipv6 s g ≡ ok (ipv4 addr)
  unfolding as_ipv4
  from_ipv4 s addr g e p d = rw (e, as_ipv4) (rw (p, d) refl)

  from_print_ipv4 :
      (a b c d : ℕ)
      → All IsByte (a ∷ b ∷ c ∷ d ∷ [])
      → from parse_ipv6 (print_ipv4 (a ∷ b ∷ c ∷ d ∷ [])) ≡ ok (ipv4 (a ∷ b ∷ c ∷ d ∷ []))
  unfolding from
  from_print_ipv4 a b c d (ha, (hb, (hc, (hd, _)))) =
      let g = guess-printed a b c d in
      from_ipv4 (printed a b c d) (a ∷ b ∷ c ∷ d ∷ []) (guess (printed a b c d) start)
        (parse_ipv4-printed a b c d ha hb hc hd) (ap (λ g. g.possible_ipv4) g) (ap (λ g. g.dots) g)

  -- The text of an IPv4 address and a port is parsed as this location, whatever the default port is, and
  -- however IPv6 addresses are parsed.
  pub from_str-print_location :
      (print_ipv6 : List ℕ → List ℕ) (a b c d port : ℕ) (default_port : Option ℕ)
      → All IsByte (a ∷ b ∷ c ∷ d ∷ [])
      → port < 65536
      → from_str parse_ipv6
          (print_location print_ipv6 (record { address = ipv4 (a ∷ b ∷ c ∷ d ∷ []); port = port }))
          default_port
        ≡ ok (record { address = ipv4 (a ∷ b ∷ c ∷ d ∷ []); port = port })
  unfolding from_str located with_port print_location print_address is_ipv6
  from_str-print_location print_ipv6 a b c d port default_port h k =
      ap (located parse_ipv6)
        (split_port-print (print_ipv4 (a ∷ b ∷ c ∷ d ∷ [])) port default_port k)
      ∙ rw (from_print_ipv4 a b c d h) refl
