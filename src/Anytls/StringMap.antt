-- ===== src/Anytls/StringMap.antt =====
-- src/anytls/types.rs, StringMap: lines of the form key=value. A text is its UTF-8 bytes.
use rust_proxy.Prelude.{
  ℕ, ◌+◌, ◌-◌, ◌*◌, ◌≡◌, refl, sym, ap₂, ◌∙◌, inl, inr, Bool, true, false, ◌&&◌, Option, none, some,
  List, [], ◌∷◌, ◌++◌, arith, ltb, leb, ◌==◌, if◌then◌else◌, Bool-cases, length, if-cases,
}

abbrev newline : ℕ
newline = 10

abbrev carriage_return : ℕ
carriage_return = 13

abbrev equals_sign : ℕ
equals_sign = 61

-- Equality of two texts.
unfoldable pub same_text : List ℕ → List ℕ → Bool
same_text [] [] = true
same_text (x ∷ xs) (y ∷ ys) = (x == y) && same_text xs ys
same_text _ _ = false

-- The hash map: a key has one entry.
abbrev pub StringMap : Type 0
StringMap = List (List ℕ × List ℕ)

unfoldable pub insert : List ℕ → List ℕ → StringMap → StringMap
insert key value [] = (key, value) ∷ []
insert key value ((k, v) ∷ rest) =
    let others = insert key value rest in
    if same_text k key then (key, value) ∷ rest else ((k, v) ∷ others)

unfoldable pub get : List ℕ → StringMap → Option (List ℕ)
get key [] = none
get key ((k, v) ∷ rest) = let found = get key rest in if same_text k key then some v else found

-- `str::lines` ends a line at a newline, and takes one carriage return before it off.
unfoldable pub strip_return : List ℕ → List ℕ
strip_return [] = []
strip_return (b ∷ []) = if b == carriage_return then [] else (b ∷ [])
strip_return (b ∷ c ∷ bs) = b ∷ strip_return (c ∷ bs)

-- `line` is what is read of the line so far.
unfoldable pub lines : List ℕ → List ℕ → List (List ℕ)
lines line [] = if length line == 0 then [] else (line ∷ [])
lines line (b ∷ bs) = elim (b == newline) [
  | true ↦ strip_return line ∷ lines [] bs
  | false ↦ lines (line ++ (b ∷ [])) bs
]

-- `split_once('=')`
unfoldable pub split_once : List ℕ → Option (List ℕ × List ℕ)
split_once [] = none
split_once (b ∷ bs) = elim (b == equals_sign) [
  | true ↦ some ([], bs)
  | false ↦ elim (split_once bs) [ none ↦ none | some (key, value) ↦ some (b ∷ key, value) ]
]

unfoldable pub insert_line : List ℕ → StringMap → StringMap
insert_line line m = elim (split_once line) [ none ↦ m | some (key, value) ↦ insert key value m ]

unfoldable pub insert_lines : List (List ℕ) → StringMap → StringMap
insert_lines [] m = m
insert_lines (line ∷ rest) m = insert_lines rest (insert_line line m)

-- `lossy` is `String::from_utf8_lossy`.
unfoldable pub from_bytes : (List ℕ → List ℕ) → List ℕ → StringMap
from_bytes lossy bytes = insert_lines (lines [] (lossy bytes)) []

-- The lines are joined by newlines.
unfoldable pub to_bytes : StringMap → List ℕ
to_bytes [] = []
to_bytes ((k, v) ∷ []) = k ++ (equals_sign ∷ v)
to_bytes ((k, v) ∷ l ∷ rest) = (k ++ (equals_sign ∷ v)) ++ (newline ∷ to_bytes (l ∷ rest))

-- `parse::<u8>`: digits, with a sign at most in front, whose number is below 256.
unfoldable pub parse_digits : ℕ → List ℕ → Option ℕ
parse_digits value [] = some value
parse_digits value (b ∷ bs) =
    let next = value * 10 + (b - 48) in
    elim (leb 48 b && (leb b 57 && ltb next 256)) [ true ↦ parse_digits next bs | false ↦ none ]

unfoldable pub parse_u8 : List ℕ → Option ℕ
parse_u8 [] = none
parse_u8 (b ∷ []) = parse_digits 0 (b ∷ [])
parse_u8 (b ∷ c ∷ bs) = if b == 43 then parse_digits 0 (c ∷ bs) else parse_digits 0 (b ∷ c ∷ bs)

-- Two texts are the same by the test just where they are equal.
pub same_text_lem : (xs ys : List ℕ) → same_text xs ys ≡ true → xs ≡ ys
unfolding same_text
same_text_lem [] [] h = refl
same_text_lem (x ∷ xs) (y ∷ ys) h =
    let e : x ≡ y = ground (arith, h) in
    let t : same_text xs ys ≡ true = ground (arith, h) in ap₂ ◌∷◌ e (same_text_lem xs ys t)
same_text_lem [] (y ∷ ys) h = absurd cc
same_text_lem (x ∷ xs) [] h = absurd cc

pub same_text_refl : (xs : List ℕ) → same_text xs xs ≡ true
unfolding same_text
same_text_refl [] = refl
same_text_refl (x ∷ xs) = let e : (x == x) ≡ true = ground arith in rw (e, same_text_refl xs) refl

-- What is inserted is found, and any other key as before.
pub get-insert :
    (key value other : List ℕ) (m : StringMap)
    → get other (insert key value m) ≡ (if same_text key other then some value else get other m)
unfolding get insert
get-insert key value other [] = refl
get-insert key value other ((k, v) ∷ rest) = elim (Bool-cases (same_text k key)) [
  | inl e ↦
      let q = same_text_lem k key e in
      rw (e, q)
        (if-cases
          (λ o. o ≡ (
            if same_text key other
            then some value
            else (if same_text key other then some v else get other rest)))
          (same_text key other) _ _ (λ t. rw t refl) (λ t. rw t refl))
  | inr e ↦ rw e (elim (Bool-cases (same_text k other)) [
    | inl f ↦
        let q = same_text_lem k other f in
        let g : same_text key other ≡ false = differ k key other q e in rw (f, g) refl
    | inr f ↦ rw f (get-insert key value other rest)
  ])
]
  where
    differ :
        (k key other : List ℕ) → k ≡ other → same_text k key ≡ false → same_text key other ≡ false
    differ k key other q e = elim (Bool-cases (same_text key other)) [
      | inl t ↦
          let same : k ≡ key = q ∙ sym (same_text_lem key other t) in
          let z : same_text k key ≡ true = rw same (same_text_refl key) in absurd cc
      | inr t ↦ t
    ]
