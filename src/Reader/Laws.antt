-- ===== src/Reader/Laws.antt =====
-- src/stream_reader.rs: the reader returns the bytes of the stream in order, whatever the pieces that the
-- transport delivers.
use rust_proxy.Prelude.{
  ℕ, ◌+◌, ◌-◌, ◌≤◌, ◌<◌, ◌≡◌, refl, sym, ap, ap₂, ◌∙◌, inl, inr, false, some, List, ◌++◌, arith,
  ltb, ◌==◌, Bool-cases, length, get_or, take, drop, length-append, take-append_le, drop-append_le,
  from_be16, drop-slice, take-slice, Arrival, arriving, Result, ok, err, panic, Poll, pending,
  ready, get_or-take, get_or-slice,
}
use rust_proxy.Reader.{
  StreamReader, Wait, unparsed_data, enough, consume, finish, front, first_u8, first_u16, read_u8,
  read_u16_be, peek_slice, read_slice,
}
use rust_proxy.Reader.Waiting.{
  IsValid, unread, held, length-unparsed_data, Waits, Finishes, wait_for-Finishes,
}

-- What a reading function may return, where `value` reads its result off the `n` bytes that it takes:
-- these are the first of the unread ones, and they stay where `taken` is 0. No other answer loses a
-- byte, and none is a panic.
abbrev pub Returns :
    {A : Type 0}
    → (List ℕ → A)
    → ℕ
    → ℕ
    → List ℕ
    → Poll (Result A) × StreamReader × List Arrival
    → Type 0
Returns value n taken bytes (ready (ok a), r, es) =
    (n ≤ length bytes) × (a ≡ value (take n bytes)) × (unread r es ≡ drop taken bytes) × IsValid r
Returns value n taken bytes (ready (err e), r, es) = (unread r es ≡ bytes) × IsValid r
Returns value n taken bytes (ready panic, r, es) = ⊥
Returns value n taken bytes (pending, r, es) = (unread r es ≡ bytes) × IsValid r

pub unparsed_data-consume :
    (n : ℕ) (r : StreamReader)
    → IsValid r
    → n ≤ held r
    → (unparsed_data (consume n r) ≡ drop n (unparsed_data r)) × IsValid (consume n r)
unfolding consume
unparsed_data-consume n r v h = elim (Bool-cases (r.start_offset + n == r.end_offset)) [
  | inl e ↦
      let z : r.end_offset - (r.start_offset + n) ≡ 0 = ground arith in
      simp e (sym (drop-slice r.buf r.start_offset r.end_offset n ∙ rw z), omega (arith, v.inside))
  | inr e ↦
      let below : r.start_offset + n ≤ r.end_offset = omega (arith, v.ordered) in
      simp e (sym (drop-slice r.buf r.start_offset r.end_offset n), omega (arith, v.inside))
]

finish-Returns :
    {A : Type 0} (value : List ℕ → A) (n taken : ℕ) (read_off : StreamReader → A)
    (step : StreamReader → StreamReader) (r : StreamReader) (es : List Arrival) (w : Wait)
    → ((r' : StreamReader)
        → IsValid r'
        → n ≤ held r'
        → read_off r' ≡ value (take n (unparsed_data r')))
    → ((r' : StreamReader)
        → IsValid r'
        → n ≤ held r'
        → (unparsed_data (step r') ≡ drop taken (unparsed_data r')) × IsValid (step r'))
    → taken ≤ n
    → Waits n r es w
    → Returns value n taken (unread r es) (finish read_off step w)
unfolding finish
finish-Returns value n taken read_off step r es (ready (ok _), r', es') hv hs t w =
    let valid = w.valid in
    let enough_held = w.filled refl in
    let held_len = length-unparsed_data r' valid in
    let inside : n ≤ length (unparsed_data r') = omega arith in
    let (left, valid') = hs r' valid enough_held in
    (
      omega (
        arith,
        ap (λ (bs : List ℕ). length bs) w.same,
        length-append (unparsed_data r') (arriving es'),
      ),
      hv r' valid enough_held
          ∙ ap value (
              sym (take-append_le n (unparsed_data r') (arriving es') inside) ∙ ap (take n) w.same),
      ap (λ bs. bs ++ arriving es') left
          ∙ (sym (drop-append_le taken (unparsed_data r') (arriving es') (omega arith))
              ∙ ap (drop taken) w.same),
      valid',
    )
finish-Returns value n taken read_off step r es (ready (err e), r', es') hv hs t w =
    (w.same, w.valid)
finish-Returns value n taken read_off step r es (ready panic, r', es') hv hs t w = w.calm refl
finish-Returns value n taken read_off step r es (pending, r', es') hv hs t w = (w.same, w.valid)

byte_at :
    (r : StreamReader) (n i : ℕ)
    → n ≤ held r
    → i < n
    → get_or r.buf (r.start_offset + i) 0 ≡ get_or (take n (unparsed_data r)) i 0
byte_at r n i h k = sym (
    get_or-take n i (unparsed_data r) 0 k
    ∙ get_or-slice r.buf r.start_offset r.end_offset i 0 (omega arith))

byte_zero :
    (r : StreamReader) (n : ℕ)
    → n ≤ held r
    → 0 < n
    → get_or r.buf r.start_offset 0 ≡ get_or (take n (unparsed_data r)) 0 0
byte_zero r n h k =
    let z : r.start_offset + 0 ≡ r.start_offset = omega arith in
    ap (λ i. get_or r.buf i 0) (sym z) ∙ byte_at r n 0 h k

module _ (r : StreamReader) (es : List Arrival) (v : IsValid r) where
  waited : (len : ℕ) → Finishes (enough r) len r es
  waited len = wait_for-Finishes (enough r) len r es v (omega arith)

  -- A read of `len` bytes, where the buffer can hold as many, returns; what it returns are the next `len`
  -- bytes of the stream, taken off it, and no other answer loses a byte.
  pub read_slice-Returns :
      (len : ℕ)
      → len ≤ length r.buf
      → (out : Poll (Result (List ℕ)) × StreamReader × List Arrival) × (read_slice len r es
          ≡ some out)
        × Returns (λ bs. bs) len len (unread r es) out
  unfolding read_slice
  read_slice-Returns len h =
      let (w, e, d) = waited len in
      let fits : ltb (length r.buf) len ≡ false = ground arith in
      (
        finish (front len) (consume len) w,
        rw (fits, e),
        finish-Returns (λ bs. bs) len len (front len) (consume len) r es w
            (λ r' v' h'.
              sym (take-slice r'.buf r'.start_offset r'.end_offset len (omega (arith, v'.ordered))))
            (λ r' v' h'. unparsed_data-consume len r' v' h') (omega arith) d,
      )

  -- A peek returns the next `len` bytes in the same way, and leaves them unread.
  pub peek_slice-Returns :
      (len : ℕ)
      → len ≤ length r.buf
      → (out : Poll (Result (List ℕ)) × StreamReader × List Arrival) × (peek_slice len r es
          ≡ some out)
        × Returns (λ bs. bs) len 0 (unread r es) out
  unfolding peek_slice
  peek_slice-Returns len h =
      let (w, e, d) = waited len in
      let fits : ltb (length r.buf) len ≡ false = ground arith in
      (
        finish (front len) (λ r. r) w,
        rw (fits, e),
        finish-Returns (λ bs. bs) len 0 (front len) (λ r. r) r es w
            (λ r' v' h'.
              sym (take-slice r'.buf r'.start_offset r'.end_offset len (omega (arith, v'.ordered))))
            (λ r' v' h'. (refl, v')) (omega arith) d,
      )

  -- `read_u16_be` returns the big-endian number of the next two bytes, and takes them.
  pub read_u16_be-Returns :
      (out : Poll (Result ℕ) × StreamReader × List Arrival) × (read_u16_be r es ≡ some out)
      × Returns (λ bs. from_be16 (get_or bs 0 0) (get_or bs 1 0)) 2 2 (unread r es) out
  unfolding read_u16_be
  read_u16_be-Returns =
      let (w, e, d) = waited 2 in
      (
        finish first_u16 (consume 2) w,
        rw e,
        finish-Returns (λ bs. from_be16 (get_or bs 0 0) (get_or bs 1 0)) 2 2 first_u16 (consume 2) r
            es w
            (λ r' v' h'.
              ap₂ from_be16 (byte_zero r' 2 h' (omega arith)) (byte_at r' 2 1 h' (omega arith)))
            (λ r' v' h'. unparsed_data-consume 2 r' v' h') (omega arith) d,
      )

  pub read_u8-Returns :
      (out : Poll (Result ℕ) × StreamReader × List Arrival) × (read_u8 r es ≡ some out)
      × Returns (λ bs. get_or bs 0 0) 1 1 (unread r es) out
  unfolding read_u8
  read_u8-Returns =
      let (w, e, d) = waited 1 in
      (
        finish first_u8 (consume 1) w,
        rw e,
        finish-Returns (λ bs. get_or bs 0 0) 1 1 first_u8 (consume 1) r es w
            (λ r' v' h'. byte_zero r' 1 h' (omega arith))
            (λ r' v' h'. unparsed_data-consume 1 r' v' h') (omega arith) d,
      )
