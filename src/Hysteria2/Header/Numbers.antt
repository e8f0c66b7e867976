-- ===== src/Hysteria2/Header/Numbers.antt =====
-- src/hysteria2.rs, read_varint: a number at the front of a stream, and the steps that read.
use rust_proxy.Prelude.{
  ℕ, suc, ◌-◌, ◌/◌, ◌%◌, ◌≤◌, ◌≡◌, refl, sym, ap, ap₂, ◌∙◌, some, List, [], ◌∷◌, ◌++◌, arith, ltb,
  ◌==◌, ltb→lt, length, get_or, take, drop, length-take, take-append-drop, Arrival, Error, Result,
  ok, err, panic, Poll, pending, ready, if-cases,
}
use rust_proxy.Reader.{StreamReader, Out, read_u8, read_slice}
use rust_proxy.Reader.Laws.{Returns, read_u8-Returns}
use rust_proxy.Reader.Waiting.{IsValid, unread}
use rust_proxy.Reader.Peeking.{read_slice-Takes}
use rust_proxy.Anytls.Server.{awaited}
use rust_proxy.Hysteria2.Varint.{num_bytes, shift_in}
use rust_proxy.Hysteria2.Header.{value_of, read_varint, fails_with}

-- The number at the front of some bytes, and what stands behind it.
pub record Varint (bytes : List ℕ) (value : ℕ) (rest : List ℕ) : Type 0 where
  pub first : ℕ
  pub more : List ℕ
  pub begins : bytes ≡ first ∷ (more ++ rest)
  pub counted : num_bytes (first / 64) ≡ suc (length more)
  pub valued : value ≡ shift_in (first % 64) more

-- A step that reads: it returns, without a panic, and where it succeeds `P` holds of the value and of the bytes
-- that are left.
abbrev pub Gives :
    {A : Type 0} → (A → List ℕ → Type 0) → Poll (Result A) × StreamReader × List Arrival → Type 0
Gives P (ready (ok a), r, es) = P a (unread r es) × IsValid r
Gives P (ready (err e), r, es) = Unit
Gives P (ready panic, r, es) = ⊥
Gives P (pending, r, es) = Unit

abbrev pub Done : {A : Type 0} → (A → List ℕ → Type 0) → Out A → Type 0
Done P o = (out : Poll (Result _) × StreamReader × List Arrival) × (o ≡ some out) × Gives P out

pub awaited-Done :
    {A B : Type 0} (P : A → List ℕ → Type 0) (Q : B → List ℕ → Type 0) (o : Out A)
    (f : A → StreamReader → List Arrival → Out B)
    → Done P o
    → ((a : A) (r : StreamReader) (es : List Arrival)
        → P a (unread r es)
        → IsValid r
        → Done Q (f a r es))
    → Done Q (awaited o f)
unfolding awaited
awaited-Done P Q o f (out, e, g) k = rw e (went out g)
  where
    went :
        (out : Poll (Result _) × StreamReader × List Arrival)
        → Gives P out
        → Done Q (awaited (some out) f)
    went (ready (ok a), r, es) (p, v) = k a r es p v
    went (ready (err x), r, es) g = ((ready (err x), r, es), refl, tt)
    went (ready panic, r, es) g = absurd g
    went (pending, r, es) g = ((pending, r, es), refl, tt)

pub fails_with-Done :
    {A : Type 0} (Q : A → List ℕ → Type 0) (e : Error) (r : StreamReader) (es : List Arrival)
    → Done Q (fails_with e r es)
fails_with-Done Q e r es = ((ready (err e), r, es), refl, tt)

-- A slice is the next bytes.
pub read_slice-Done :
    (n : ℕ) (r : StreamReader) (es : List Arrival)
    → IsValid r
    → Done (λ bs rest. (length bs ≡ n) × (unread r es ≡ bs ++ rest)) (read_slice n r es)
read_slice-Done n r es v = let (out, e, t) = read_slice-Takes r es n v in (out, e, taken out t)
  where
    taken :
        (out : Poll (Result (List ℕ)) × StreamReader × List Arrival)
        → Returns (λ bs. bs) n n (unread r es) out
        → Gives (λ bs rest. (length bs ≡ n) × (unread r es ≡ bs ++ rest)) out
    taken (ready (ok a), r', es') (l, q, u, w) = (
      (
        ap (λ (t : List ℕ). length t) q ∙ omega (arith, length-take n (unread r es)),
        sym (take-append-drop n (unread r es)) ∙ ap₂ ◌++◌ (sym q) (sym u),
      ),
      w,
    )
    taken (ready (err x), r', es') t = tt
    taken (ready panic, r', es') t = t
    taken (pending, r', es') t = tt

pub read_u8-Done :
    (r : StreamReader) (es : List Arrival)
    → IsValid r
    → Done (λ b rest. unread r es ≡ b ∷ rest) (read_u8 r es)
read_u8-Done r es v = let (out, e, t) = read_u8-Returns r es v in (out, e, taken out t)
  where
    headed :
        (bs : List ℕ) (a : ℕ) (rest : List ℕ)
        → 1 ≤ length bs
        → a ≡ get_or (take 1 bs) 0 0
        → rest ≡ drop 1 bs
        → bs ≡ a ∷ rest
    headed [] a rest l q u = absurd (omega arith)
    headed (b ∷ bs) a rest l q u = ap₂ ◌∷◌ (sym q) (sym u)

    taken :
        (out : Poll (Result ℕ) × StreamReader × List Arrival)
        → Returns (λ bs. get_or bs 0 0) 1 1 (unread r es) out
        → Gives (λ b rest. unread r es ≡ b ∷ rest) out
    taken (ready (ok a), r', es') (l, q, u, w) = (headed (unread r es) a (unread r' es') l q u, w)
    taken (ready (err x), r', es') t = tt
    taken (ready panic, r', es') t = t
    taken (pending, r', es') t = tt

pub num_bytes_positive : (n : ℕ) → 1 ≤ num_bytes n
num_bytes_positive n =
    if-cases (λ m. 1 ≤ m) (n == 0) 1 _ (λ _. omega arith)
      (λ _.
        if-cases (λ m. 1 ≤ m) (n == 1) 2 _ (λ _. omega arith)
          (λ _. if-cases (λ m. 1 ≤ m) (n == 2) 4 8 (λ _. omega arith) (λ _. omega arith)))

pub value_of-Done :
    (bytes : List ℕ) (first : ℕ) (r : StreamReader) (es : List Arrival)
    → bytes ≡ first ∷ unread r es
    → IsValid r
    → Done (Varint bytes) (value_of first r es)
unfolding value_of
value_of-Done bytes first r es e v =
    let n = num_bytes (first / 64) in
    let some_bytes = num_bytes_positive (first / 64) in
    if-cases (Done (Varint bytes)) (ltb 1 n) _ _
      (λ t.
        awaited-Done (λ bs rest. (length bs ≡ n - 1) × (unread r es ≡ bs ++ rest)) (Varint bytes)
          (read_slice (n - 1) r es) _ (read_slice-Done (n - 1) r es v)
          (λ bs r' es' h v'. (
            (ready (ok (shift_in (first % 64) bs)), r', es'),
            refl,
            (
              record {
                first = first;
                more = bs;
                begins = e ∙ ap (λ t. first ∷ t) h.1;
                counted = omega (arith, h.0, some_bytes, ltb→lt _ _ t);
                valued = refl;
              },
              v',
            ),
          )))
      (λ t. (
        (ready (ok (first % 64)), r, es),
        refl,
        (
          record {
            first = first;
            more = [];
            begins = e;
            counted = ground (arith, some_bytes, t);
            valued = unfold shift_in in refl;
          },
          v,
        ),
      ))

-- A number is read off the front of the stream.
pub read_varint-Done :
    (r : StreamReader) (es : List Arrival)
    → IsValid r
    → Done (Varint (unread r es)) (read_varint r es)
unfolding read_varint
read_varint-Done r es v =
    awaited-Done (λ b rest. unread r es ≡ b ∷ rest) (Varint (unread r es)) (read_u8 r es) value_of
      (read_u8-Done r es v) (λ b r' es' e v'. value_of-Done (unread r es) b r' es' e v')
