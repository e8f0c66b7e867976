-- ===== src/Prelude/Results.antt =====
-- What a Rust function returns: a value, an `io::Error` or a panic; and the answer of a poll.
use Prim.Native.Nat.{ℕ}
use mathlib.Core.Path.{◌≡◌, refl}
use mathlib.Core.Logic.{◌⊎◌, inl, inr}

-- `std::io::ErrorKind`, without the texts; `device` is an error of the transport below.
pub data Error : Type 0 where
  other invalid_data invalid_input connection_aborted : Error
  broken_pipe write_zero unexpected_eof permission_denied unsupported timed_out : Error
  device : ℕ → Error

-- `panic` is an index out of range, a failed `assert!` or an `unwrap` of nothing.
pub data Result {ℓ} (A : Type ℓ) : Type ℓ where
  ok : A → Result A
  err : Error → Result A
  panic : Result A

infixl 5 ◌>>=◌
abbrev pub ◌>>=◌ {ℓ κ} : {A : Type ℓ} {B : Type κ} → Result A → (A → Result B) → Result B
ok a >>= f = f a
err e >>= f = err e
panic >>= f = panic

pub Result-cases {ℓ} :
    {A : Type ℓ} (r : Result A)
    → ((a : A) × (r ≡ ok a)) ⊎ (((e : Error) × (r ≡ err e)) ⊎ (r ≡ panic))
Result-cases (ok a) = inl (a, refl)
Result-cases (err e) = inr (inl (e, refl))
Result-cases panic = inr (inr refl)

pub data Poll {ℓ} (A : Type ℓ) : Type ℓ where
  pending : Poll A
  ready : A → Poll A
