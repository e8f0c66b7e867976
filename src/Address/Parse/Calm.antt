-- ===== src/Address/Parse/Calm.antt =====
-- src/address.rs: parsing an address or a location does not panic.
use rust_proxy.Prelude.{
  ℕ, Bool, not, ◌&&◌, Option, none, some, List, ◌==◌, if◌then◌else◌, Error, Result, ok, err, panic,
  ◌>>=◌, if-cases,
}
use rust_proxy.Address.{Address, ipv4, ipv6, hostname, is_ipv6}
use rust_proxy.Address.Parse as Parse

-- Parsing a location does not panic.
abbrev pub Calm : {A : Type 0} → Result A → Type 0
Calm (ok a) = Unit
Calm (err e) = Unit
Calm panic = ⊥

module _ (parse_ipv6 : List ℕ → Option (List ℕ)) where
  from-Calm : (s : List ℕ) → Calm (Parse.from parse_ipv6 s)
  unfolding Parse.from Parse.as_ipv4 Parse.as_ipv6 Parse.as_hostname
  from-Calm s = by_ipv4 (Parse.parse_ipv4 s)
    where
      by_name : Calm (
          if (Parse.guess s Parse.start).possible_hostname
          then ok (hostname s)
          else err Error.invalid_data)
      by_name = if-cases Calm (Parse.guess s Parse.start).possible_hostname _ _ (λ _. tt) (λ _. tt)

      by_ipv6 :
          (o : Option (List ℕ))
          → Calm (elim o [
            | none ↦ Parse.as_hostname parse_ipv6 s (Parse.guess s Parse.start)
            | some addr ↦
                if (Parse.guess s Parse.start).possible_ipv6
                then ok (ipv6 addr)
                else Parse.as_hostname parse_ipv6 s (Parse.guess s Parse.start)
          ])
      by_ipv6 none = unfold Parse.as_hostname in by_name
      by_ipv6 (some addr) =
          if-cases Calm (Parse.guess s Parse.start).possible_ipv6 _ _ (λ _. tt)
            (λ _. unfold Parse.as_hostname in by_name)

      by_ipv4 :
          (o : Option (List ℕ))
          → Calm (elim o [
            | none ↦ Parse.as_ipv6 parse_ipv6 s (Parse.guess s Parse.start)
            | some addr ↦
                if (Parse.guess s Parse.start).possible_ipv4
                  && ((Parse.guess s Parse.start).dots == 3)
                then ok (ipv4 addr)
                else Parse.as_ipv6 parse_ipv6 s (Parse.guess s Parse.start)
          ])
      by_ipv4 none = unfold Parse.as_ipv6 in by_ipv6 (parse_ipv6 s)
      by_ipv4 (some addr) =
          if-cases Calm
            ((Parse.guess s Parse.start).possible_ipv4 && ((Parse.guess s Parse.start).dots == 3)) _
            _ (λ _. tt) (λ _. unfold Parse.as_ipv6 in by_ipv6 (parse_ipv6 s))

  located-Calm :
      (a : Result Address) (port : Option ℕ) (expect_ipv6 : Bool)
      → Calm a
      → Calm (
          a >>= λ address.
          if expect_ipv6 && not (is_ipv6 address)
          then err Error.other
          else Parse.with_port address port)
  located-Calm (ok address) port expect_ipv6 c =
      if-cases Calm (expect_ipv6 && not (is_ipv6 address)) _ _ (λ _. tt) (λ _. ported port)
    where
      ported : (port : Option ℕ) → Calm (Parse.with_port address port)
      ported none = unfold Parse.with_port in tt
      ported (some n) = unfold Parse.with_port in tt
  located-Calm (err e) port expect_ipv6 c = tt
  located-Calm panic port expect_ipv6 c = absurd c

  pub from_str-Calm :
      (s : List ℕ) (default_port : Option ℕ) → Calm (Parse.from_str parse_ipv6 s default_port)
  unfolding Parse.from_str Parse.located
  from_str-Calm s default_port =
      let (text, port, expect_ipv6) = Parse.split_port s default_port in
      located-Calm (Parse.from parse_ipv6 text) port expect_ipv6 (from-Calm text)
