-- ===== src/Anytls/Padding.antt =====
-- src/anytls/padding.rs: the sizes that the packets of a session are filled up to.
pub mod Sizes
use rust_proxy.Prelude.{
  ℕ, ◌+◌, ◌/◌, ◌%◌, ◌^◌, min, max, ◌⊎◌, inl, inr, Option, none, some, List, [], ◌∷◌, ◌++◌, ltb,
  ◌==◌, if◌then◌else◌, length, Result, ok, panic,
}
use rust_proxy.Text.{trim, split_on, split_first}
use rust_proxy.Decimal.{parse_number, decimal}
use rust_proxy.Anytls.StringMap.{StringMap, from_bytes, get, same_text}
use rust_proxy.Anytls.Session.Wire.{check_mark}

pub record PaddingFactory : Type 0 where
  pub scheme : StringMap
  pub raw_scheme : List ℕ
  pub stop : ℕ
  pub md5 : List ℕ

-- The two texts of the errors of `new`.
pub data SchemeError : Type 0 where
  missing_stop : SchemeError
  invalid_stop : SchemeError

-- `{b:02x}` of each byte.
abbrev hex_digit : ℕ → ℕ
hex_digit n = if ltb n 10 then 48 + n else 87 + n

unfoldable pub hex : List ℕ → List ℕ
hex [] = []
hex (b ∷ bs) = hex_digit (b / 16) ∷ hex_digit (b % 16) ∷ hex bs

-- "stop"
abbrev stop_key : List ℕ
stop_key = 115 ∷ 116 ∷ 111 ∷ 112 ∷ []

-- `lossy` is `String::from_utf8_lossy`, and `digest` the MD5 of the library.
unfoldable pub with_scheme : (List ℕ → List ℕ) → List ℕ → StringMap → SchemeError ⊎ PaddingFactory
with_scheme digest raw_scheme scheme = elim (get stop_key scheme) [
  | none ↦ inl missing_stop
  | some value ↦ elim (parse_number (2 ^ 32) value) [
    | none ↦ inl invalid_stop
    | some stop ↦ inr (record {
      scheme = scheme;
      raw_scheme = raw_scheme;
      stop = stop;
      md5 = hex (digest raw_scheme);
    })
  ]
]

abbrev pub new : (List ℕ → List ℕ) → (List ℕ → List ℕ) → List ℕ → SchemeError ⊎ PaddingFactory
new lossy digest raw_scheme = with_scheme digest raw_scheme (from_bytes lossy raw_scheme)

-- A number of 64 bits with a sign, where it is more than 0.
unfoldable pub positive : List ℕ → Option ℕ
positive s = elim (parse_number (2 ^ 63) (trim s)) [
  | none ↦ none
  | some v ↦ if ltb 0 v then some v else none
]

-- The size between two bounds, cut to the 32 bits of an `i32`; `draw` is `random_range` with both ends.
unfoldable pub drawn : (ℕ → ℕ → ℕ) → ℕ → ℕ → ℕ
drawn draw a b =
    let low = min a b in
    let high = max a b in if low == high then low % 2 ^ 32 else draw low high % 2 ^ 32

unfoldable pub range_size : (ℕ → ℕ → ℕ) → Option (List ℕ × List ℕ) → List ℕ
range_size draw none = []
range_size draw (some (min_str, max_str)) = elim (positive min_str) [
  | none ↦ []
  | some a ↦ elim (positive max_str) [ none ↦ [] | some b ↦ drawn draw a b ∷ [] ]
]

-- The size of one part, if it has one: 99 is "c", and 45 the dash.
unfoldable pub part_size : (ℕ → ℕ → ℕ) → List ℕ → List ℕ
part_size draw part =
    if same_text part (99 ∷ []) then check_mark ∷ [] else range_size draw (split_first 45 part)

-- The parts in order; each has its own draw.
unfoldable pub part_sizes : (ℕ → ℕ → ℕ → ℕ) → List (List ℕ) → List ℕ
part_sizes draws [] = []
part_sizes draws (part ∷ parts) =
    part_size (draws (length parts)) (trim part) ++ part_sizes draws parts

-- 44 is the comma.
unfoldable pub generate_record_payload_sizes : (ℕ → ℕ → ℕ → ℕ) → PaddingFactory → ℕ → List ℕ
generate_record_payload_sizes draws f pkt = elim (get (decimal pkt) f.scheme) [
  | none ↦ []
  | some spec ↦ part_sizes draws (split_on 44 [] spec)
]

-- `DEFAULT_PADDING_SCHEME`
abbrev pub default_padding_scheme : List ℕ
default_padding_scheme =
    115 ∷ 116 ∷ 111 ∷ 112 ∷ 61 ∷ 56 ∷ 10 ∷ 48 ∷ 61 ∷ 51 ∷ 48 ∷ 45 ∷ 51 ∷ 48 ∷ 10 ∷ 49 ∷ 61 ∷ 49 ∷ 48
    ∷ 48 ∷ 45 ∷ 52 ∷ 48 ∷ 48 ∷ 10 ∷ 50 ∷ 61 ∷ 52 ∷ 48 ∷ 48 ∷ 45 ∷ 53 ∷ 48 ∷ 48 ∷ 44 ∷ 99 ∷ 44 ∷ 53
    ∷ 48 ∷ 48 ∷ 45 ∷ 49 ∷ 48 ∷ 48 ∷ 48 ∷ 44 ∷ 99 ∷ 44 ∷ 53 ∷ 48 ∷ 48 ∷ 45 ∷ 49 ∷ 48 ∷ 48 ∷ 48 ∷ 44
    ∷ 99 ∷ 44 ∷ 53 ∷ 48 ∷ 48 ∷ 45 ∷ 49 ∷ 48 ∷ 48 ∷ 48 ∷ 44 ∷ 99 ∷ 44 ∷ 53 ∷ 48 ∷ 48 ∷ 45 ∷ 49 ∷ 48
    ∷ 48 ∷ 48 ∷ 10 ∷ 51 ∷ 61 ∷ 57 ∷ 45 ∷ 57 ∷ 44 ∷ 53 ∷ 48 ∷ 48 ∷ 45 ∷ 49 ∷ 48 ∷ 48 ∷ 48 ∷ 10 ∷ 52
    ∷ 61 ∷ 53 ∷ 48 ∷ 48 ∷ 45 ∷ 49 ∷ 48 ∷ 48 ∷ 48 ∷ 10 ∷ 53 ∷ 61 ∷ 53 ∷ 48 ∷ 48 ∷ 45 ∷ 49 ∷ 48 ∷ 48
    ∷ 48 ∷ 10 ∷ 54 ∷ 61 ∷ 53 ∷ 48 ∷ 48 ∷ 45 ∷ 49 ∷ 48 ∷ 48 ∷ 48 ∷ 10 ∷ 55 ∷ 61 ∷ 53 ∷ 48 ∷ 48 ∷ 45
    ∷ 49 ∷ 48 ∷ 48 ∷ 48 ∷ []

-- `expect`
unfoldable pub expected : SchemeError ⊎ PaddingFactory → Result PaddingFactory
expected (inl e) = panic
expected (inr f) = ok f

abbrev pub default_factory : (List ℕ → List ℕ) → (List ℕ → List ℕ) → Result PaddingFactory
default_factory lossy digest = expected (new lossy digest default_padding_scheme)
