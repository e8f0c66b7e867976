-- ===== src/Decimal.antt =====
-- Decimal numbers as Rust prints and parses them (`Display` and `str::parse` of an unsigned integer); a
-- text is its bytes.
use rust_proxy.Prelude.{
  ℕ, zero, suc, ◌+◌, ◌-◌, ◌*◌, ◌/◌, ◌%◌, ◌^◌, ◌≤◌, ◌<◌, ◌≡◌, refl, ap, ◌∙◌, inl, inr, Bool, true,
  false, ◌&&◌, Option, none, some, List, [], ◌∷◌, ◌++◌, arith, ltb, leb, ◌==◌, if◌then◌else◌,
  ltb→lt, lt→ltb, Bool-cases, length, length-append, All, All-append, if-cases,
}

abbrev pub IsDigit : ℕ → Type 0
IsDigit b = (48 ≤ b) × (b ≤ 57)

abbrev pub is_digit : ℕ → Bool
is_digit b = leb 48 b && leb b 57

-- The digits behind `value`, while the number stays below `limit`.
unfoldable pub parse_digits : ℕ → ℕ → List ℕ → Option ℕ
parse_digits limit value [] = some value
parse_digits limit value (b ∷ bs) =
    let next = value * 10 + (b - 48) in
    let rest = parse_digits limit next bs in if is_digit b && ltb next limit then rest else none

unfoldable pub parse_number : ℕ → List ℕ → Option ℕ
parse_number limit [] = none
parse_number limit (b ∷ []) = parse_digits limit 0 (b ∷ [])
parse_number limit (b ∷ c ∷ bs) =
    if b == 43 then parse_digits limit 0 (c ∷ bs) else parse_digits limit 0 (b ∷ c ∷ bs)

-- The fuel is a bound on the count of the digits.
unfoldable pub digits : ℕ → ℕ → List ℕ
digits zero n = (48 + n % 10) ∷ []
digits (suc fuel) n =
    let rest = digits fuel (n / 10) in
    if ltb n 10 then ((48 + n) ∷ []) else rest ++ ((48 + n % 10) ∷ [])

abbrev pub decimal : ℕ → List ℕ
decimal n = digits n n

parse_digits-append :
    (limit value : ℕ) (xs : List ℕ) (b n : ℕ)
    → parse_digits limit value xs ≡ some n
    → is_digit b ≡ true
    → n * 10 + (b - 48) < limit
    → parse_digits limit value (xs ++ (b ∷ [])) ≡ some (n * 10 + (b - 48))
unfolding parse_digits
parse_digits-append limit value [] b n h d l =
    let e : value ≡ n = cc in
    let t : ltb (value * 10 + (b - 48)) limit ≡ true = rw e (lt→ltb _ _ l) in rw (d, t, e) refl
parse_digits-append limit value (x ∷ xs) b n h d l =
    elim (Bool-cases (is_digit x && ltb (value * 10 + (x - 48)) limit)) [
      | inl t ↦ rw t (parse_digits-append limit (value * 10 + (x - 48)) xs b n (rw t at h) d l)
      | inr t ↦ let z : none ≡ some n = rw t at h in absurd cc
    ]

digit-IsDigit : (n : ℕ) → n < 10 → (is_digit (48 + n) ≡ true)
digit-IsDigit n h = ground arith

-- What is printed is read back, below the limit.
pub parse_digits-digits :
    (limit fuel n : ℕ) → n ≤ fuel → n < limit → parse_digits limit 0 (digits fuel n) ≡ some n
unfolding parse_digits digits
parse_digits-digits limit zero n f h =
    let z : n ≡ 0 = omega arith in let t : ltb 0 limit ≡ true = ground arith in rw (z, t) refl
parse_digits-digits limit (suc fuel) n f h =
    if-cases (λ o. parse_digits limit 0 o ≡ some n) (ltb n 10) _ _
      (λ t.
        let d : is_digit (48 + n) ≡ true = digit-IsDigit n (ltb→lt _ _ t) in
        let e : 0 + (48 + n - 48) ≡ n = omega arith in
        let l : ltb n limit ≡ true = lt→ltb _ _ h in rw (d, e, l) refl)
      (λ t.
        let big : 10 ≤ n = ground arith in
        let e : (n / 10) * 10 + (48 + n % 10 - 48) ≡ n = omega arith in
        parse_digits-append limit 0 (digits fuel (n / 10)) (48 + n % 10) (n / 10)
          (parse_digits-digits limit fuel (n / 10) (omega arith) (omega arith))
          (digit-IsDigit (n % 10) (omega arith)) (omega arith)
        ∙ ap some e)

-- The bytes that are printed.
pub digits-IsDigit : (fuel n : ℕ) → All IsDigit (digits fuel n)
unfolding digits
digits-IsDigit zero n = ((omega arith, omega arith), tt)
digits-IsDigit (suc fuel) n =
    if-cases (All IsDigit) (ltb n 10) _ _
      (λ t. let h : n < 10 = ltb→lt _ _ t in ((omega arith, omega arith), tt))
      (λ t.
        All-append IsDigit (digits fuel (n / 10)) _ (digits-IsDigit fuel (n / 10))
          ((omega arith, omega arith), tt))

-- A number from 1 is printed without a zero in front.
pub digits-first :
    (fuel n : ℕ)
    → n ≤ fuel
    → 0 < n
    → (b : ℕ) × (bs : List ℕ) × (digits fuel n ≡ b ∷ bs) × (48 < b) × (b ≤ 57)
unfolding digits
digits-first zero n f h = absurd (omega arith)
digits-first (suc fuel) n f h =
    if-cases (λ o. (b : ℕ) × (bs : List ℕ) × (o ≡ b ∷ bs) × (48 < b) × (b ≤ 57)) (ltb n 10) _ _
      (λ t. let l : n < 10 = ltb→lt _ _ t in (48 + n, [], refl, omega arith, omega arith))
      (λ t.
        let big : 10 ≤ n = ground arith in
        let (b, bs, e, l, u) = digits-first fuel (n / 10) (omega arith) (omega arith) in
        (b, bs ++ ((48 + n % 10) ∷ []), rw e refl, l, u))

-- How many digits a number has.
pub length-digits : (k fuel n : ℕ) → n ≤ fuel → n < 10 ^ suc k → length (digits fuel n) ≤ suc k
unfolding digits
length-digits k zero n f h = omega arith
length-digits zero (suc fuel) n f h =
    if-cases (λ o. length o ≤ 1) (ltb n 10) ((48 + n) ∷ []) _ (λ t. omega arith)
      (λ t. absurd (ground arith))
length-digits (suc k) (suc fuel) n f h =
    if-cases (λ o. length o ≤ suc (suc k)) (ltb n 10) ((48 + n) ∷ []) _ (λ t. omega arith)
      (λ t. omega (
        arith,
        length-append (digits fuel (n / 10)) ((48 + n % 10) ∷ []),
        length-digits k fuel (n / 10) (omega arith) (omega arith),
      ))

pub digits_nonempty : (fuel n : ℕ) → 0 < length (digits fuel n)
unfolding digits
digits_nonempty zero n = omega arith
digits_nonempty (suc fuel) n =
    if-cases (λ (o : List ℕ). 0 < length o) (ltb n 10) ((48 + n) ∷ []) _ (λ t. omega arith)
      (λ t. omega (arith, length-append (digits fuel (n / 10)) ((48 + n % 10) ∷ [])))

-- A number that is printed is read back.
pub parse_number-decimal : (limit n : ℕ) → n < limit → parse_number limit (decimal n) ≡ some n
parse_number-decimal limit n h =
    unsigned (decimal n) (digits-IsDigit n n) (parse_digits-digits limit n n (omega arith) h)
      (digits_nonempty n n)
  where
    unsigned :
        (xs : List ℕ)
        → All IsDigit xs
        → parse_digits limit 0 xs ≡ some n
        → 0 < length xs
        → parse_number limit xs ≡ some n
    unsigned [] a e l = absurd (omega arith)
    unsigned (x ∷ []) a e l = unfold parse_number in e
    unsigned (x ∷ y ∷ ys) ((k, u), a) e l =
        let no_sign : (x == 43) ≡ false = ground arith in unfold parse_number in rw no_sign e
