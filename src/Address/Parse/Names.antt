-- ===== src/Address/Parse/Names.antt =====
-- src/address.rs: which texts are host names.
use rust_proxy.Prelude.{
  ℕ, ◌+◌, ◌<◌, ◌≡◌, refl, ap, ◌∙◌, ◌≢◌, ◌⊎◌, inl, inr, true, false, not, ◌&&◌, Option, List, [],
  ◌∷◌, ◌++◌, arith, ltb, ◌==◌, ltb→lt, Option-cases, All, ok, if-cases,
}
use rust_proxy.Decimal.{is_digit, decimal}
use rust_proxy.Address.{hostname, is_ipv6}
use rust_proxy.Address.Parse.{
  dot, colon, Guess, start, is_hex_letter, guess_byte, guess, parse_ipv4, as_hostname, as_ipv6,
  as_ipv4, from, with_port, located, from_str,
}
use rust_proxy.Address.Parse.Printed.{split_port-print}

-- A byte that no address has: no digit, no letter of a hexadecimal number, no dot and no colon.
pub record IsNameByte (c : ℕ) : Type 0 where
  pub not_colon : c ≢ colon
  pub not_dot : c ≢ dot
  pub not_letter : is_hex_letter c ≡ false
  pub not_digit : is_digit c ≡ false

-- What the loop knows: no colon yet.
abbrev pub NoColon : List ℕ → Type 0
NoColon = All (λ c. c ≢ colon)

-- What is found where there was no colon before a byte that no address has.
record Named (g : Guess) : Type 0 where
  host : g.possible_hostname ≡ true
  no_ipv6 : g.possible_ipv6 ≡ false
  no_ipv4 : (g.possible_ipv4 ≡ false) ⊎ (3 < g.dots)

-- The step at a byte.
name_byte :
    (c : ℕ) (g : Guess)
    → IsNameByte c
    → guess_byte c g ≡ inl (record g { possible_ipv4 = false; possible_ipv6 = false })
unfolding guess_byte
name_byte c g h =
    let a : (c == colon) ≡ false = ground (arith, h.not_colon) in
    let b : (c == dot) ≡ false = ground (arith, h.not_dot) in
    rw (a, b, h.not_letter, h.not_digit) refl

abbrev Goes : Guess ⊎ Guess → Type 0
Goes (inl g) = Named g
Goes (inr g) = g.possible_hostname ≡ true

guess_byte-Goes :
    (c : ℕ) (g : Guess) → c ≢ colon → g.possible_hostname ≡ true → Goes (guess_byte c g)
unfolding guess_byte
guess_byte-Goes c g h k =
    let a : (c == colon) ≡ false = ground (arith, h) in
    rw a (
      if-cases Goes (c == dot) _ _
        (λ _.
          if-cases Goes (ltb 3 (g.dots + 1)) (inl _) (inr _)
            (λ t. record { host = k; no_ipv6 = refl; no_ipv4 = inr (ltb→lt _ _ t) }) (λ _. k))
        (λ _.
          if-cases Goes (is_hex_letter c) (inr _) _ (λ _. k)
            (λ _.
              if-cases Goes (not (is_digit c)) (inl _) (inr g)
                (λ _. record { host = k; no_ipv6 = refl; no_ipv4 = inl refl }) (λ _. k))))

guess-Named :
    (before : List ℕ) (c : ℕ) (behind : List ℕ) (g : Guess)
    → NoColon before
    → IsNameByte c
    → g.possible_hostname ≡ true
    → Named (guess (before ++ (c ∷ behind)) g)
unfolding guess
guess-Named [] c behind g h n k =
    rw (name_byte c g n, guess) (record { host = k; no_ipv6 = refl; no_ipv4 = inl refl })
guess-Named (b ∷ bs) c behind g (h, hs) n k =
    went (guess_byte b g) (guess_byte-Goes b g h k) (λ g' q. guess-Named bs c behind g' hs n q)
  where
    went :
        (x : Guess ⊎ Guess)
        → Goes x
        → ((g' : Guess) → g'.possible_hostname ≡ true → Named (guess (bs ++ (c ∷ behind)) g'))
        → Named (elim x [ inl g' ↦ g' | inr g' ↦ guess (bs ++ (c ∷ behind)) g' ])
    went (inl g') q f = q
    went (inr g') q f = f g' q

module _ (parse_ipv6 : List ℕ → Option (List ℕ)) where
  as_ipv6-Named : (s : List ℕ) (g : Guess) → Named g → as_ipv6 parse_ipv6 s g ≡ ok (hostname s)
  unfolding as_ipv6 as_hostname
  as_ipv6-Named s g n = elim (Option-cases (parse_ipv6 s)) [
    | inl e ↦ rw (e, as_ipv6) (rw n.host refl)
    | inr (addr, e) ↦ rw (e, as_ipv6) (rw (n.no_ipv6, n.host) refl)
  ]

  as_ipv4-Named : (s : List ℕ) (g : Guess) → Named g → as_ipv4 parse_ipv6 s g ≡ ok (hostname s)
  unfolding as_ipv4
  as_ipv4-Named s g n = elim (Option-cases (parse_ipv4 s)) [
    | inl e ↦ rw (e, as_ipv4) (as_ipv6-Named s g n)
    | inr (addr, e) ↦
        let no : (g.possible_ipv4 && (g.dots == 3)) ≡ false = elim n.no_ipv4 [
          | inl f ↦ rw f refl
          | inr f ↦ ground (arith, f)
        ] in
        rw (e, as_ipv4) (rw no (as_ipv6-Named s g n))
  ]

  pub from_name :
      (before : List ℕ) (c : ℕ) (behind : List ℕ)
      → NoColon before
      → IsNameByte c
      → from parse_ipv6 (before ++ (c ∷ behind)) ≡ ok (hostname (before ++ (c ∷ behind)))
  unfolding from
  from_name before c behind h n =
      as_ipv4-Named (before ++ (c ∷ behind)) _ (guess-Named before c behind start h n refl)

  -- A text with a byte that no address has, and no colon before it, is a host name, and the number behind
  -- the last colon its port: also a name that has further colons, such as an IPv6 address in brackets.
  pub from_str-hostname :
      (before : List ℕ) (c : ℕ) (behind : List ℕ) (port : ℕ) (default_port : Option ℕ)
      → NoColon before
      → IsNameByte c
      → port < 65536
      → from_str parse_ipv6 ((before ++ (c ∷ behind)) ++ (colon ∷ decimal port)) default_port
        ≡ ok (record { address = hostname (before ++ (c ∷ behind)); port = port })
  unfolding from_str located with_port is_ipv6
  from_str-hostname before c behind port default_port h n k =
      ap (located parse_ipv6) (split_port-print (before ++ (c ∷ behind)) port default_port k)
      ∙ rw (from_name before c behind h n) refl
