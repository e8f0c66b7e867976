-- ===== src/Prelude/Bytes.antt =====
-- Bytes and big-endian integers, as `to_be_bytes` and `from_be_bytes` give them.
use Prim.Native.Nat.{ℕ, zero, suc, ◌+◌, ◌*◌, ◌/◌, ◌%◌, ◌<◌}
use mathlib.Core.Path.{◌≡◌}
use mathlib.Core.List.{List, [], ◌∷◌, ◌++◌}
use rust_proxy.Prelude.Lists.{get_or}
use native.Mathlib.Omega.{arith}

abbrev pub IsByte : ℕ → Type 0
IsByte b = b < 256

module _ {ℓ} {A : Type ℓ} where
  abbrev pub All {κ} : (A → Type κ) → List A → Type κ
  All P [] = Unit {κ}
  All P (x ∷ xs) = P x × All P xs

abbrev pub be16 : ℕ → List ℕ
be16 n = n / 256 % 256 ∷ n % 256 ∷ []

abbrev pub be32 : ℕ → List ℕ
be32 n = n / 16777216 % 256 ∷ n / 65536 % 256 ∷ n / 256 % 256 ∷ n % 256 ∷ []

abbrev pub from_be16 : ℕ → ℕ → ℕ
from_be16 a b = a * 256 + b

abbrev pub from_be32 : ℕ → ℕ → ℕ → ℕ → ℕ
from_be32 a b c d = a * 16777216 + b * 65536 + c * 256 + d

pub from_be16-be16 : (n : ℕ) → n < 65536 → from_be16 (n / 256 % 256) (n % 256) ≡ n
from_be16-be16 n h = omega arith

pub from_be32-be32 :
    (n : ℕ)
    → n < 4294967296
    → from_be32 (n / 16777216 % 256) (n / 65536 % 256) (n / 256 % 256) (n % 256) ≡ n
from_be32-be32 n h = omega arith

pub be16-from_be16 : (a b : ℕ) → a < 256 → b < 256 → be16 (from_be16 a b) ≡ a ∷ b ∷ []
be16-from_be16 a b ha hb = ground arith

pub be32-from_be32 :
    (a b c d : ℕ)
    → a < 256
    → b < 256
    → c < 256
    → d < 256
    → be32 (from_be32 a b c d) ≡ a ∷ b ∷ c ∷ d ∷ []
be32-from_be32 a b c d ha hb hc hd = ground arith

pub All-get_or : (xs : List ℕ) (i : ℕ) → All IsByte xs → get_or xs i 0 < 256
All-get_or [] i h = omega arith
All-get_or (x ∷ xs) zero h = h.0
All-get_or (x ∷ xs) (suc i) h = All-get_or xs i h.1

module _ {ℓ κ} {A : Type ℓ} (P : A → Type κ) where
  pub All-append : (xs ys : List A) → All P xs → All P ys → All P (xs ++ ys)
  All-append [] ys h k = k
  All-append (x ∷ xs) ys h k = (h.0, All-append xs ys h.1 k)

  pub All-append_left : (xs ys : List A) → All P (xs ++ ys) → All P xs
  All-append_left [] ys h = tt
  All-append_left (x ∷ xs) ys h = (h.0, All-append_left xs ys h.1)
