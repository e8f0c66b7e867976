-- ===== src/Reader/Peeking.antt =====
-- src/stream_reader.rs: a peek, and the bytes that it has seen taken afterwards.
use rust_proxy.Prelude.{
  ℕ, ◌≤◌, ◌≡◌, refl, sym, ap, ◌∙◌, inl, inr, some, List, ◌++◌, arith, ltb, Bool-cases, length, take,
  drop, take-append_le, drop-append_le, take-slice, Arrival, arriving, Error, Result, ok, err,
  panic, Poll, pending, ready,
}
use rust_proxy.Reader.{
  StreamReader, Wait, unparsed_data, enough, consume, finish, front, read_slice, peek_slice,
}
use rust_proxy.Reader.Laws.{Returns, unparsed_data-consume, read_slice-Returns}
use rust_proxy.Reader.Waiting.{
  IsValid, unread, held, length-unparsed_data, Waits, wait_for-Finishes,
}

-- What a peek may give: the next bytes, which stay unread, and are those that `consume` then takes.
abbrev pub Peeks : ℕ → List ℕ → Poll (Result (List ℕ)) × StreamReader × List Arrival → Type 0
Peeks n bytes (ready (ok a), r, es) =
    (a ≡ take n bytes)
    × (unread r es ≡ bytes)
    × IsValid r
    × (unread (consume n r) es ≡ drop n bytes)
    × IsValid (consume n r)
Peeks n bytes (ready (err e), r, es) = (unread r es ≡ bytes) × IsValid r
Peeks n bytes (ready panic, r, es) = ⊥
Peeks n bytes (pending, r, es) = (unread r es ≡ bytes) × IsValid r

seen :
    (n : ℕ) (r : StreamReader) (es : List Arrival) (bytes : List ℕ)
    → IsValid r
    → n ≤ held r
    → unread r es ≡ bytes
    → Peeks n bytes (ready (ok (front n r)), r, es)
seen n r es bytes v h e =
    let (left, valid) = unparsed_data-consume n r v h in
    let long : n ≤ length (unparsed_data r) = omega (arith, length-unparsed_data r v) in
    (
      sym (take-slice r.buf r.start_offset r.end_offset n (omega (arith, v.ordered)))
          ∙ (sym (take-append_le n (unparsed_data r) (arriving es) long) ∙ ap (take n) e),
      e,
      v,
      ap (λ t. t ++ arriving es) left
          ∙ (sym (drop-append_le n (unparsed_data r) (arriving es) long) ∙ ap (drop n) e),
      valid,
    )

finish-Peeks :
    (n : ℕ) (r : StreamReader) (es : List Arrival) (w : Wait)
    → Waits n r es w
    → Peeks n (unread r es) (finish (front n) (λ r. r) w)
unfolding finish
finish-Peeks n r es (ready (ok _), r', es') w =
    seen n r' es' (unread r es) w.valid (w.filled refl) w.same
finish-Peeks n r es (ready (err e), r', es') w = (w.same, w.valid)
finish-Peeks n r es (ready panic, r', es') w = absurd (w.calm refl)
finish-Peeks n r es (pending, r', es') w = (w.same, w.valid)

pub peek_slice-Peeks :
    (r : StreamReader) (es : List Arrival) (n : ℕ)
    → IsValid r
    → (out : Poll (Result (List ℕ)) × StreamReader × List Arrival) × (peek_slice n r es ≡ some out)
      × Peeks n (unread r es) out
unfolding peek_slice
peek_slice-Peeks r es n v = elim (Bool-cases (ltb (length r.buf) n)) [
  | inl e ↦ ((ready (err Error.invalid_input), r, es), rw e refl, (refl, v))
  | inr e ↦
      let (w, f, d) = wait_for-Finishes (enough r) n r es v (omega arith) in
      (finish (front n) (λ r. r) w, rw (e, f) refl, finish-Peeks n r es w d)
]

-- A read of a length that the buffer cannot hold is an error that takes nothing.
pub read_slice-Takes :
    (r : StreamReader) (es : List Arrival) (n : ℕ)
    → IsValid r
    → (out : Poll (Result (List ℕ)) × StreamReader × List Arrival) × (read_slice n r es ≡ some out)
      × Returns (λ bs. bs) n n (unread r es) out
read_slice-Takes r es n v = elim (Bool-cases (ltb (length r.buf) n)) [
  | inl e ↦ ((ready (err Error.invalid_input), r, es), unfold read_slice in rw e refl, (refl, v))
  | inr e ↦ read_slice-Returns r es v n (ground arith)
]
