-- ===== src/Reader/Waiting.antt =====
-- src/stream_reader.rs: a wait for bytes reads from the transport until the buffer holds them.
use rust_proxy.Prelude.{
  ℕ, zero, suc, ◌+◌, ◌-◌, ◌≤◌, ◌<◌, ◌≡◌, refl, ap, ap₂, ◌∙◌, ◌≢◌, ◌⊎◌, inl, inr, some, List, [],
  ◌∷◌, ◌++◌, append_assoc, arith, ltb, ◌==◌, Bool-cases, length, length-slice, Awaited,
  await_read-Awaited, length-write_at, slice-write_at_end, slice-write_at_zero, Arrival, arriving,
  Result, ok, err, panic, Poll, pending, ready,
}
use rust_proxy.Reader.{
  StreamReader, Wait, unparsed_data, is_cache_full, reset_buf_offset, arrived, read, go_on,
  wait_turn, wait_for,
}

pub record IsValid (r : StreamReader) : Type 0 where
  pub ordered : r.start_offset ≤ r.end_offset
  pub inside : r.end_offset ≤ length r.buf

-- The bytes that no call has returned: those in the buffer, then those that arrive.
abbrev pub unread : StreamReader → List Arrival → List ℕ
unread r es = unparsed_data r ++ arriving es

abbrev pub held : StreamReader → ℕ
held r = r.end_offset - r.start_offset

pub length-unparsed_data : (r : StreamReader) → IsValid r → length (unparsed_data r) ≡ held r
length-unparsed_data r v = length-slice r.buf r.start_offset r.end_offset v.inside

-- What a read of the transport may leave.
pub record Reads (r : StreamReader) (es : List Arrival) (w : Wait) : Type 0 where
  pub same : unread w.1 w.2 ≡ unread r es
  pub valid : IsValid w.1
  pub memory : length w.1.buf ≡ length r.buf
  pub calm : w.0 ≢ ready panic
  pub more : w.0 ≡ ready (ok tt) → held r < held w.1

module _ (r : StreamReader) (v : IsValid r) where
  unparsed_data-reset : unparsed_data (reset_buf_offset r) ≡ unparsed_data r
  unfolding reset_buf_offset
  unparsed_data-reset = elim (Bool-cases (r.start_offset == 0)) [
    | inl e ↦ simp e
    | inr e ↦ simp e (slice-write_at_zero r.buf r.start_offset r.end_offset v.ordered v.inside)
  ]

  pub reset-IsValid :
      IsValid (reset_buf_offset r)
      × (length (reset_buf_offset r).buf ≡ length r.buf)
      × (held (reset_buf_offset r) ≡ held r)
  unfolding reset_buf_offset
  reset-IsValid =
      ground (arith, length-write_at r.buf 0 (unparsed_data r), length-unparsed_data r v)

-- The bytes of one read go behind those in the buffer.
arrived-Reads :
    (r r' : StreamReader) (es : List Arrival) (out : Poll (Result (List ℕ)) × List Arrival)
    → IsValid r'
    → unparsed_data r' ≡ unparsed_data r
    → length r'.buf ≡ length r.buf
    → held r' ≡ held r
    → Awaited (length r'.buf - r'.end_offset) es out
    → Reads r es (arrived r' out)
unfolding arrived
arrived-Reads r r' es (pending, es') v u m n a = record {
  same = ap₂ ◌++◌ u (a.same (λ c h. cc));
  valid = v;
  memory = m;
  calm = λ h. cc;
  more = λ h. cc;
}
arrived-Reads r r' es (ready (err e), es') v u m n a = record {
  same = ap₂ ◌++◌ u (a.same (λ c h. cc));
  valid = v;
  memory = m;
  calm = λ h. cc;
  more = λ h. cc;
}
arrived-Reads r r' es (ready panic, es') v u m n a = absurd (a.calm refl)
arrived-Reads r r' es (ready (ok []), es') v u m n a = record {
  same = ap₂ ◌++◌ u (a.fits [] refl).1;
  valid = v;
  memory = m;
  calm = λ h. cc;
  more = λ h. cc;
}
arrived-Reads r r' es (ready (ok (x ∷ xs)), es') v u m n a =
    let (room, bytes) = a.fits (x ∷ xs) refl in
    let fits : r'.end_offset + length (x ∷ xs) ≤ length r'.buf = omega (arith, v.inside) in
    let memory = length-write_at r'.buf r'.end_offset (x ∷ xs) fits in
    record {
      same =
          ap (λ bs. bs ++ arriving es')
            (slice-write_at_end r'.buf r'.start_offset r'.end_offset (x ∷ xs) v.ordered fits)
          ∙ (append_assoc (unparsed_data r') (x ∷ xs) (arriving es') ∙ ap₂ ◌++◌ u bytes);
      valid = omega (arith, v.ordered, memory);
      memory = memory ∙ m;
      calm = λ h. cc;
      more = λ h. omega (arith, v.ordered);
    }

pub read-Reads : (r : StreamReader) (es : List Arrival) → IsValid r → Reads r es (read r es)
unfolding read
read-Reads r es v = elim (Bool-cases (is_cache_full r)) [
  | inl e ↦ rw e (record { same = refl; valid = v; memory = refl; calm = λ h. cc; more = λ h. cc })
  | inr e ↦
      let (valid, memory, same) = reset-IsValid r v in
      rw e (
        arrived-Reads r (reset_buf_offset r) es _ valid (unparsed_data-reset r v) memory same
          (await_read-Awaited _ es))
]

-- What a wait for `len` bytes may leave.
pub record Waits (len : ℕ) (r : StreamReader) (es : List Arrival) (w : Wait) : Type 0 where
  pub same : unread w.1 w.2 ≡ unread r es
  pub valid : IsValid w.1
  pub calm : w.0 ≢ ready panic
  pub filled : w.0 ≡ ready (ok tt) → len ≤ held w.1

abbrev Turns : ℕ → StreamReader → List Arrival → Wait ⊎ (StreamReader × List Arrival) → Type 0
Turns len r es (inl w) = Waits len r es w
Turns len r es (inr (r', es')) =
    (unread r' es' ≡ unread r es) × IsValid r' × (length r'.buf ≡ length r.buf) × (held r < held r')

go_on-Turns :
    (len : ℕ) (r : StreamReader) (es : List Arrival) (w : Wait)
    → Reads r es w
    → Turns len r es (go_on w)
unfolding go_on
go_on-Turns len r es (ready (ok _), r', es') d = (d.same, d.valid, d.memory, d.more refl)
go_on-Turns len r es (ready (err e), r', es') d = record {
  same = d.same;
  valid = d.valid;
  calm = λ h. cc;
  filled = λ h. cc;
}
go_on-Turns len r es (ready panic, r', es') d = absurd (d.calm refl)
go_on-Turns len r es (pending, r', es') d = record {
  same = d.same;
  valid = d.valid;
  calm = λ h. cc;
  filled = λ h. cc;
}

wait_turn-Turns :
    (len : ℕ) (r : StreamReader) (es : List Arrival)
    → IsValid r
    → Turns len r es (wait_turn len r es)
unfolding wait_turn
wait_turn-Turns len r es v = elim (Bool-cases (ltb (held r) len)) [
  | inl e ↦ rw e (go_on-Turns len r es (read r es) (read-Reads r es v))
  | inr e ↦ rw e (record { same = refl; valid = v; calm = λ h. cc; filled = λ h. ground arith })
]

abbrev pub Finishes : ℕ → ℕ → StreamReader → List Arrival → Type 0
Finishes fuel len r es = (w : Wait) × (wait_for fuel len r es ≡ some w) × Waits len r es w

pub wait_for-Finishes :
    (fuel len : ℕ) (r : StreamReader) (es : List Arrival)
    → IsValid r
    → length r.buf < fuel + held r
    → Finishes fuel len r es
wait_for-Finishes zero len r es v f = absurd (omega (arith, v.inside))
wait_for-Finishes (suc fuel) len r es v f =
    turned (wait_for-Finishes fuel len) (wait_turn len r es) refl (wait_turn-Turns len r es v)
  where
    turned :
        ((r' : StreamReader) (es' : List Arrival)
          → IsValid r'
          → length r'.buf < fuel + held r'
          → Finishes fuel len r' es')
        → (t : Wait ⊎ (StreamReader × List Arrival)) → wait_turn len r es ≡ t
        → Turns len r es t
        → Finishes (suc fuel) len r es
    turned ih (inl w) q d = (w, unfold wait_for in rw (q, wait_for), d)
    turned ih (inr (r', es')) q (same, valid, memory, more) =
        let (w, p, s) = ih r' es' valid (omega arith) in
        (
          w,
          unfold wait_for in rw (q, wait_for) p,
          record { same = s.same ∙ same; valid = s.valid; calm = s.calm; filled = s.filled },
        )
