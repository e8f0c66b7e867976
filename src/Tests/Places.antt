-- ===== src/Tests/Places.antt =====
-- src/address.rs: the theorems at concrete inputs.
use rust_proxy.Prelude.{◌≡◌, refl, none, some, [], ◌∷◌, arith, ok}
use rust_proxy.Address.{ipv4, hostname}
use rust_proxy.Address.Parse.{from_str, print_location}
use rust_proxy.Address.Parse.Printed.{from_str-print_location}
use rust_proxy.Address.Parse.Names.{from_str-hostname}

-- 127.0.0.1:8443
from_str-print_location_example :
    from_str
      (λ s. none)
      (print_location (λ o. o) (record { address = ipv4 (127 ∷ 0 ∷ 0 ∷ 1 ∷ []); port = 8443 }))
      (some 80)
    ≡ ok (record { address = ipv4 (127 ∷ 0 ∷ 0 ∷ 1 ∷ []); port = 8443 })
from_str-print_location_example =
    from_str-print_location (λ s. none) (λ o. o) 127 0 0 1 8443 (some 80)
      (omega arith, (omega arith, (omega arith, (omega arith, tt)))) (omega arith)

-- [::1]:443
from_str-hostname_example :
    from_str (λ s. some (0 ∷ [])) (91 ∷ 58 ∷ 58 ∷ 49 ∷ 93 ∷ 58 ∷ 52 ∷ 52 ∷ 51 ∷ []) none
    ≡ ok (record { address = hostname (91 ∷ 58 ∷ 58 ∷ 49 ∷ 93 ∷ []); port = 443 })
unfolding rust_proxy.Decimal.digits
from_str-hostname_example =
    from_str-hostname (λ s. some (0 ∷ [])) [] 91 (58 ∷ 58 ∷ 49 ∷ 93 ∷ []) 443 none tt
      (record {
        not_colon = λ h. omega (arith, h);
        not_dot = λ h. omega (arith, h);
        not_letter = refl;
        not_digit = refl;
      })
      (omega arith)
