-- ===== src/Reader/Filling.antt =====
-- src/stream_reader.rs: a wait ends well where enough bytes are coming, whatever the pieces.
use rust_proxy.Prelude.{
  ℕ, zero, suc, ◌+◌, ◌-◌, ◌≤◌, ◌<◌, ◌≡◌, refl, sym, ap, subst, ◌∙◌, inl, inr, some, List, [], ◌∷◌,
  arith, ltb, Bool-cases, length, take, Arrival, coming, Gives, await_read-Gives, Result, ok, Poll,
  ready, false,
}
use rust_proxy.Reader.{
  StreamReader, Wait, is_cache_full, reset_buf_offset, arrived, read, go_on, wait_turn, wait_for,
  enough, front, consume, finish, read_slice,
}
use rust_proxy.Reader.Waiting.{IsValid, unread, held, read-Reads, reset-IsValid, Reads}
use rust_proxy.Reader.Laws.{Returns, read_slice-Returns}

-- A read that succeeds moves bytes from those that are coming into the buffer.
abbrev Fills : StreamReader → List Arrival → Wait → Type 0
Fills r es w =
    (r' : StreamReader) × (es' : List Arrival) × (w ≡ (ready (ok tt), r', es'))
    × (held r' + length (coming es') ≡ held r + length (coming es))

module _ (r : StreamReader) (es : List Arrival) (v : IsValid r) (room : held r < length r.buf)
    (more : 0 < length (coming es)) where
  arrived-Fills :
      (r' : StreamReader) (out : Poll (Result (List ℕ)) × List Arrival)
      → Gives es out
      → held r' ≡ held r
      → r'.start_offset ≤ r'.end_offset
      → Fills r es (arrived r' out)
  unfolding arrived
  arrived-Fills r' out (x ∷ xs, rest, e, h, q) s o = rw e (_, rest, refl, omega (arith, q, s, o))
  arrived-Fills r' out ([], rest, e, h, q) s o = absurd (omega arith)

  not_full : is_cache_full r ≡ false
  unfolding is_cache_full
  not_full = ground (arith, room)

  at_front : (reset_buf_offset r).start_offset ≡ 0
  unfolding reset_buf_offset
  at_front = ground arith

  read-Fills : Fills r es (read r es)
  unfolding read
  read-Fills =
      let r' = reset_buf_offset r in
      let (valid, memory, same) = reset-IsValid r v in
      let h : 0 < length r'.buf - r'.end_offset = omega (arith, at_front, memory, same, room) in
      rw not_full (arrived-Fills r' _ (await_read-Gives _ es h more) same valid.ordered)

wait_for-Fills :
    (fuel len : ℕ) (r : StreamReader) (es : List Arrival)
    → IsValid r
    → length r.buf < fuel + held r
    → len ≤ length r.buf
    → len ≤ held r + length (coming es)
    → (r' : StreamReader) × (es' : List Arrival) × (wait_for fuel len r es
        ≡ some (ready (ok tt), r', es'))
wait_for-Fills zero len r es v f fits k = absurd (omega (arith, v.inside))
wait_for-Fills (suc fuel) len r es v f fits k = elim (Bool-cases (ltb (held r) len)) [
  | inl e ↦
      let below : held r < len = ground arith in
      let (r', es', q, s) =
        read-Fills r es v (omega (arith, below, fits)) (omega (arith, below, k)) in
      let d : Reads r es (ready (ok tt), r', es') =
        subst (λ w. Reads r es w) q (read-Reads r es v) in
      let (r'', es'', p) =
        wait_for-Fills fuel len r' es' d.valid (omega (arith, f, d.memory, d.more refl))
          (omega (arith, fits, d.memory)) (omega (arith, k, s)) in
      let t : wait_turn len r es ≡ inr (r', es') =
        unfold wait_turn in rw (e, q) (unfold go_on in refl) in
      (r'', es'', next r' es' t p)
  | inr e ↦
      let t : wait_turn len r es ≡ inl (ready (ok tt), r, es) = unfold wait_turn in rw e refl in
      (r, es, unfold wait_for in rw (t, wait_for) refl)
]
  where
    next :
        {w : Wait} (r' : StreamReader) (es' : List Arrival)
        → wait_turn len r es ≡ inr (r', es')
        → wait_for fuel len r' es' ≡ some w
        → wait_for (suc fuel) len r es ≡ some w
    next r' es' t p = unfold wait_for in rw (t, wait_for) p

-- A read of `len` bytes, where the buffer can hold as many, returns. Where that many are in the buffer or are
-- coming before the end of the stream or an error, it returns just the next `len` bytes, whatever the pieces
-- in which they come and wherever the buffer stands. A read that returns bytes has taken just those; no other
-- answer loses a byte.
pub read_slice-Reads :
    (r : StreamReader) (es : List Arrival) (len : ℕ)
    → IsValid r
    → len ≤ length r.buf
    → (out : Poll (Result (List ℕ)) × StreamReader × List Arrival) × (read_slice len r es
        ≡ some out)
      × Returns (λ bs. bs) len len (unread r es) out
      × (len ≤ held r + length (coming es) → out.0 ≡ ready (ok (take len (unread r es))))
read_slice-Reads r es len v fits =
    let (out, e, d) = read_slice-Returns r es v len fits in (out, e, d, λ h. exact out e d h)
  where
    exact :
        (out : Poll (Result (List ℕ)) × StreamReader × List Arrival)
        → read_slice len r es ≡ some out
        → Returns (λ bs. bs) len len (unread r es) out
        → len ≤ held r + length (coming es)
        → out.0 ≡ ready (ok (take len (unread r es)))
    exact out e d h =
        let (r', es', q) = wait_for-Fills (enough r) len r es v (omega arith) fits h in
        let small : ltb (length r.buf) len ≡ false = ground arith in
        let p : some out ≡ some (ready (ok (front len r')), consume len r', es') =
          sym e ∙ (unfold read_slice finish in rw (small, q) refl) in
        let same : out ≡ (ready (ok (front len r')), consume len r', es') = cc in
        taken r' es' (subst (λ o. Returns (λ bs. bs) len len (unread r es) o) same d) same
      where
        taken :
            (r' : StreamReader) (es' : List Arrival)
            → Returns
                (λ bs. bs)
                len
                len
                (unread r es)
                (ready (ok (front len r')), consume len r', es')
            → out ≡ (ready (ok (front len r')), consume len r', es')
            → out.0 ≡ ready (ok (take len (unread r es)))
        taken r' es' d q = ap (λ o. o.0) q ∙ ap (λ bs. ready (ok bs)) d.1
