-- ===== src/Tests/Paddings.antt =====
-- src/anytls/padding.rs: the theorem at a concrete input.
use rust_proxy.Prelude.{ℕ, ◌^◌, ◌≤◌, ◌<◌, ◌≡◌, refl, [], ◌∷◌, arith, All, ok}
use rust_proxy.Anytls.Padding.{PaddingFactory, default_factory, generate_record_payload_sizes}
use rust_proxy.Anytls.Padding.Sizes.{SizeFits, default_factory-SizeFits}

-- The least size of each range.
abbrev least : ℕ → ℕ → ℕ → ℕ
least i m n = m

default_factory-SizeFits_example :
    (f : PaddingFactory) × (default_factory (λ s. s) (λ s. 1 ∷ 171 ∷ []) ≡ ok f)
    × (f.stop ≡ 8)
    × ((pkt : ℕ) → All SizeFits (generate_record_payload_sizes least f pkt))
    × ((pkt : ℕ) → pkt < 2 ^ 32 → 8 ≤ pkt → generate_record_payload_sizes least f pkt ≡ [])
default_factory-SizeFits_example =
    default_factory-SizeFits (λ s. s) (λ s. 1 ∷ 171 ∷ []) least refl (λ i m n h. (omega arith, h))
