-- ===== src/Text.antt =====
-- What is used of Rust's `str`: trimming and splitting. A text is its UTF-8 bytes.
use rust_proxy.Prelude.{
  ℕ, zero, suc, true, false, ◌&&◌, ◌||◌, Option, none, some, List, [], ◌∷◌, ◌++◌, leb, ◌==◌,
  if◌then◌else◌, length, drop,
}

-- The bytes of the white space that a text starts with, `char::is_whitespace`: 0 where there is none.
unfoldable pub space_length : List ℕ → ℕ
space_length [] = 0
space_length (b ∷ []) = if (leb 9 b && leb b 13) || (b == 32) then 1 else 0
space_length (b ∷ c ∷ []) =
    if (leb 9 b && leb b 13) || (b == 32)
    then 1
    else if (b == 194) && ((c == 133) || (c == 160))
    then 2
    else 0
space_length (b ∷ c ∷ d ∷ rest) =
    if (leb 9 b && leb b 13) || (b == 32)
    then 1
    else if (b == 194) && ((c == 133) || (c == 160))
    then 2
    else if (b == 225) && ((c == 154) && (d == 128))
    then 3
    else if (b == 226) && ((c == 128) && (leb d 138 || ((d == 168) || ((d == 169) || (d == 175)))))
    then 3
    else if (b == 226) && ((c == 129) && (d == 159))
    then 3
    else if (b == 227) && ((c == 128) && (d == 128))
    then 3
    else 0

unfoldable pub skip_spaces : ℕ → List ℕ → List ℕ
skip_spaces zero s = s
skip_spaces (suc fuel) s = elim (space_length s) [
  | zero ↦ s
  | suc n ↦ skip_spaces fuel (drop (suc n) s)
]

abbrev pub trim_start : List ℕ → List ℕ
trim_start s = skip_spaces (length s) s

-- The text up to where only white space is left.
unfoldable pub trim_end : List ℕ → List ℕ
trim_end [] = []
trim_end (b ∷ bs) = elim (trim_start (b ∷ bs)) [ [] ↦ [] | _ ∷ _ ↦ b ∷ trim_end bs ]

unfoldable pub trim : List ℕ → List ℕ
trim s = trim_end (trim_start s)

-- `split` at each `separator`; `part` is what is read of the part so far.
unfoldable pub split_on : ℕ → List ℕ → List ℕ → List (List ℕ)
split_on separator part [] = part ∷ []
split_on separator part (b ∷ bs) = elim (b == separator) [
  | true ↦ part ∷ split_on separator [] bs
  | false ↦ split_on separator (part ++ (b ∷ [])) bs
]

-- `split_once` at the first `separator`.
unfoldable pub split_first : ℕ → List ℕ → Option (List ℕ × List ℕ)
split_first separator [] = none
split_first separator (b ∷ bs) = elim (b == separator) [
  | true ↦ some ([], bs)
  | false ↦ elim (split_first separator bs) [
    | none ↦ none
    | some (before, behind) ↦ some (b ∷ before, behind)
  ]
]
