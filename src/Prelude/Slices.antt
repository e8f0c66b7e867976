-- ===== src/Prelude/Slices.antt =====
-- Parts of a buffer: Rust's `&xs[s..e]`, and writes into it.
use Prim.Native.Nat.{ℕ, zero, suc, ◌+◌, ◌-◌, ◌≤◌, ◌<◌}
use mathlib.Core.Path.{◌≡◌, refl, sym, ap, ◌∙◌}
use mathlib.Core.List.{List, [], ◌∷◌, ◌++◌}
use native.Mathlib.Omega.{arith}
use rust_proxy.Prelude.Lists.{length, get_or, take, drop, length-append, length-take, length-drop}
use rust_proxy.Prelude.Lists.{take-append, drop-append, take-append_le, drop-append_le}

module _ {ℓ} {A : Type ℓ} where
  abbrev pub slice : List A → ℕ → ℕ → List A
  slice xs s e = take (e - s) (drop s xs)

  -- `xs[i..i + ys.len()].copy_from_slice(ys)`
  unfoldable pub write_at : List A → ℕ → List A → List A
  write_at xs i ys = take i xs ++ (ys ++ drop (i + length ys) xs)

  pub drop-nil : (n : ℕ) → drop {A = A} n [] ≡ []
  drop-nil zero = refl
  drop-nil (suc n) = refl

  pub take-nil : (n : ℕ) → take {A = A} n [] ≡ []
  take-nil zero = refl
  take-nil (suc n) = refl

  pub drop-drop : (m n : ℕ) (xs : List A) → drop m (drop n xs) ≡ drop (n + m) xs
  drop-drop m zero xs = let e : zero + m ≡ m = omega arith in rw e
  drop-drop m (suc n) [] = rw (drop-nil m, drop-nil (suc n + m))
  drop-drop m (suc n) (x ∷ xs) =
      let e : suc n + m ≡ suc (n + m) = omega arith in rw e (drop-drop m n xs)

  pub drop-take : (m n : ℕ) (xs : List A) → drop n (take m xs) ≡ take (m - n) (drop n xs)
  drop-take m zero xs = let e : m - zero ≡ m = omega arith in rw e
  drop-take zero (suc n) xs = let e : zero - suc n ≡ zero = omega arith in rw e
  drop-take (suc m) (suc n) [] = rw take-nil
  drop-take (suc m) (suc n) (x ∷ xs) =
      let e : suc m - suc n ≡ m - n = omega arith in rw e (drop-take m n xs)

  pub take-take : (m n : ℕ) (xs : List A) → m ≤ n → take m (take n xs) ≡ take m xs
  take-take zero n xs h = refl
  take-take (suc m) zero xs h = absurd (omega arith)
  take-take (suc m) (suc n) [] h = refl
  take-take (suc m) (suc n) (x ∷ xs) h = ap (λ ys. x ∷ ys) (take-take m n xs (omega arith))

  pub take_all : (n : ℕ) (xs : List A) → length xs ≤ n → take n xs ≡ xs
  take_all zero [] h = refl
  take_all zero (x ∷ xs) h = absurd (omega arith)
  take_all (suc n) [] h = refl
  take_all (suc n) (x ∷ xs) h = ap (λ ys. x ∷ ys) (take_all n xs (omega arith))

  pub drop_all : (n : ℕ) (xs : List A) → length xs ≤ n → drop n xs ≡ []
  drop_all zero [] h = refl
  drop_all zero (x ∷ xs) h = absurd (omega arith)
  drop_all (suc n) [] h = refl
  drop_all (suc n) (x ∷ xs) h = drop_all n xs (omega arith)

  -- Past the first list, `take` and `drop` go on in the second.
  pub take-append_ge :
      (n : ℕ) (xs ys : List A) → length xs ≤ n → take n (xs ++ ys) ≡ xs ++ take (n - length xs) ys
  take-append_ge n [] ys h = let e : n - zero ≡ n = omega arith in rw e
  take-append_ge zero (x ∷ xs) ys h = absurd (omega arith)
  take-append_ge (suc n) (x ∷ xs) ys h =
      let e : suc n - suc (length xs) ≡ n - length xs = omega arith in
      rw e (ap (λ zs. x ∷ zs) (take-append_ge n xs ys (omega arith)))

  pub drop-append_ge :
      (n : ℕ) (xs ys : List A) → length xs ≤ n → drop n (xs ++ ys) ≡ drop (n - length xs) ys
  drop-append_ge n [] ys h = let e : n - zero ≡ n = omega arith in rw e
  drop-append_ge zero (x ∷ xs) ys h = absurd (omega arith)
  drop-append_ge (suc n) (x ∷ xs) ys h =
      let e : suc n - suc (length xs) ≡ n - length xs = omega arith in
      rw e (drop-append_ge n xs ys (omega arith))

  pub length-slice : (xs : List A) (s e : ℕ) → e ≤ length xs → length (slice xs s e) ≡ e - s
  length-slice xs s e h = omega (arith, length-take (e - s) (drop s xs), length-drop s xs)

  pub length-write_at :
      (xs : List A) (i : ℕ) (ys : List A)
      → i + length ys ≤ length xs
      → length (write_at xs i ys) ≡ length xs
  unfolding write_at
  length-write_at xs i ys h = omega (
    arith,
    length-append (take i xs) (ys ++ drop (i + length ys) xs),
    length-append ys (drop (i + length ys) xs),
    length-take i xs,
    length-drop (i + length ys) xs,
  )

  -- What stands before the place written to, and at it.
  pub take-write_at :
      (xs : List A) (i : ℕ) (ys : List A) (n : ℕ)
      → i + length ys ≤ length xs
      → n ≤ i
      → take n (write_at xs i ys) ≡ take n xs
  unfolding write_at
  take-write_at xs i ys n h k =
      take-append_le n (take i xs) _ (omega (arith, length-take i xs)) ∙ take-take n i xs k

  pub take-write_at_end :
      (xs : List A) (i : ℕ) (ys : List A)
      → i + length ys ≤ length xs
      → take (i + length ys) (write_at xs i ys) ≡ take i xs ++ ys
  unfolding write_at
  take-write_at_end xs i ys h =
      let len : length (take i xs) ≡ i = omega (arith, length-take i xs) in
      let e : i + length ys - i ≡ length ys = omega arith in
      take-append_ge (i + length ys) (take i xs) _ (omega arith)
      ∙ rw (len, e, take-append ys (drop (i + length ys) xs))

  -- A slice as a part of the prefix that it ends.
  pub slice-eq : (xs : List A) (s e : ℕ) → slice xs s e ≡ drop s (take e xs)
  slice-eq xs s e = rw (drop-take e s xs)

  -- Bytes written at the end of a slice extend it.
  pub slice-write_at_end :
      (xs : List A) (s e : ℕ) (ys : List A)
      → s ≤ e
      → e + length ys ≤ length xs
      → slice (write_at xs e ys) s (e + length ys) ≡ slice xs s e ++ ys
  slice-write_at_end xs s e ys h k =
      let len : length (take e xs) ≡ e = omega (arith, length-take e xs) in
      slice-eq (write_at xs e ys) s (e + length ys)
      ∙ (ap (drop s) (take-write_at_end xs e ys k)
          ∙ (drop-append_le s (take e xs) ys (omega arith)
              ∙ ap (λ zs. zs ++ ys) (sym (slice-eq xs s e))))

  -- `copy_within(s..e, 0)` keeps the bytes of the slice.
  pub slice-write_at_zero :
      (xs : List A) (s e : ℕ)
      → s ≤ e
      → e ≤ length xs
      → slice (write_at xs 0 (slice xs s e)) 0 (e - s) ≡ slice xs s e
  unfolding write_at
  slice-write_at_zero xs s e h k =
      let len : length (slice xs s e) ≡ e - s = length-slice xs s e k in
      let z : e - s - 0 ≡ e - s = omega arith in
      ap (λ k. take k (slice xs s e ++ drop (0 + length (slice xs s e)) xs)) (z ∙ sym len)
      ∙ take-append (slice xs s e) _

  pub drop-slice : (xs : List A) (s e n : ℕ) → drop n (slice xs s e) ≡ slice xs (s + n) e
  drop-slice xs s e n =
      let z : e - s - n ≡ e - (s + n) = omega arith in
      drop-take (e - s) n (drop s xs) ∙ rw (z, drop-drop n s xs)

  pub take-slice :
      (xs : List A) (s e n : ℕ) → s + n ≤ e → take n (slice xs s e) ≡ slice xs s (s + n)
  take-slice xs s e n h =
      let z : s + n - s ≡ n = omega arith in take-take n (e - s) (drop s xs) (omega arith) ∙ rw z

  -- Bytes and slices of a list are those of any longer list.
  pub get_or-append_lt :
      (i : ℕ) (xs ys : List A) (d : A) → i < length xs → get_or (xs ++ ys) i d ≡ get_or xs i d
  get_or-append_lt i [] ys d h = absurd (omega arith)
  get_or-append_lt zero (x ∷ xs) ys d h = refl
  get_or-append_lt (suc i) (x ∷ xs) ys d h = get_or-append_lt i xs ys d (omega arith)

  pub slice-append_le :
      (xs ys : List A) (s e : ℕ) → e ≤ length xs → slice (xs ++ ys) s e ≡ slice xs s e
  slice-append_le xs ys s e h =
      slice-eq (xs ++ ys) s e ∙ (ap (drop s) (take-append_le e xs ys h) ∙ sym (slice-eq xs s e))

  -- The elements right behind the first list.
  pub get_or-append_length :
      (xs ys : List A) (i : ℕ) (d : A) → get_or (xs ++ ys) (length xs + i) d ≡ get_or ys i d
  get_or-append_length [] ys i d = let e : zero + i ≡ i = omega arith in rw e
  get_or-append_length (x ∷ xs) ys i d =
      let e : suc (length xs) + i ≡ suc (length xs + i) = omega arith in
      rw e (get_or-append_length xs ys i d)

  pub slice-append_mid :
      (xs ys zs : List A) (s e : ℕ)
      → s ≡ length xs
      → e ≡ s + length ys
      → slice (xs ++ (ys ++ zs)) s e ≡ ys
  slice-append_mid xs ys zs s e hs he =
      let n : e - s ≡ length ys = omega arith in
      rw (n, hs, drop-append xs (ys ++ zs)) (take-append ys zs)

  pub get_or-take : (n i : ℕ) (xs : List A) (d : A) → i < n → get_or (take n xs) i d ≡ get_or xs i d
  get_or-take zero i xs d h = absurd (omega arith)
  get_or-take (suc n) i [] d h = refl
  get_or-take (suc n) zero (x ∷ xs) d h = refl
  get_or-take (suc n) (suc i) (x ∷ xs) d h = get_or-take n i xs d (omega arith)

  pub slice-take : (n s e : ℕ) (xs : List A) → e ≤ n → slice (take n xs) s e ≡ slice xs s e
  slice-take n s e xs h =
      slice-eq (take n xs) s e ∙ (ap (drop s) (take-take e n xs h) ∙ sym (slice-eq xs s e))

  pub take-write_at_start : (xs ys : List A) → take (length ys) (write_at xs 0 ys) ≡ ys
  unfolding write_at
  take-write_at_start xs ys = take-append ys (drop (0 + length ys) xs)

  pub get_or-drop : (s i : ℕ) (xs : List A) (d : A) → get_or (drop s xs) i d ≡ get_or xs (s + i) d
  get_or-drop zero i xs d = let e : zero + i ≡ i = omega arith in rw e
  get_or-drop (suc s) i [] d = refl
  get_or-drop (suc s) i (x ∷ xs) d =
      let e : suc s + i ≡ suc (s + i) = omega arith in rw e (get_or-drop s i xs d)

  pub get_or-slice :
      (xs : List A) (s e i : ℕ) (d : A)
      → i < e - s
      → get_or (slice xs s e) i d ≡ get_or xs (s + i) d
  get_or-slice xs s e i d h = get_or-take (e - s) i (drop s xs) d h ∙ get_or-drop s i xs d

  -- What stands behind the place written to.
  pub drop-write_at :
      (xs : List A) (i : ℕ) (ys : List A) (n : ℕ)
      → i + length ys ≤ length xs
      → i + length ys ≤ n
      → drop n (write_at xs i ys) ≡ drop n xs
  unfolding write_at
  drop-write_at xs i ys n h k =
      let before : length (take i xs) ≡ i = omega (arith, length-take i xs) in
      let past : i + length ys + (n - i - length ys) ≡ n = omega arith in
      drop-append_ge n (take i xs) (ys ++ drop (i + length ys) xs) (omega arith)
      ∙ (rw before (
          drop-append_ge (n - i) ys (drop (i + length ys) xs) (omega arith)
          ∙ (drop-drop (n - i - length ys) (i + length ys) xs ∙ ap (λ k. drop k xs) past)))
