-- ===== src/Message/Vless/Write.antt =====
-- src/message_stream.rs, VlessMessageStream: the write and flush side.
use rust_proxy.Prelude.{
  ℕ, ◌+◌, ◌/◌, ◌%◌, ◌^◌, ◌<◌, min, ◌≡◌, refl, sym, ap, ◌∙◌, ◌≢◌, inl, inr, true, false, some, List,
  [], ◌∷◌, ◌++◌, append-nil, append_assoc, arith, ltb, ◌==◌, if◌then◌else◌, Bool-cases, length,
  take, drop, length-append, take-append-drop, be16, from_be16-be16, drop-nil, drop-drop, drop_all,
  Answer, busy, fails, takes, Sink, poll_done_lem, Error, Result, ok, err, panic, Poll, pending,
  ready, slice-append_mid,
}
use rust_proxy.Message.Vless.Read.{parse_message}
use rust_proxy.Message.Vless.{
  VlessMessageStream, WriteOut, Drained, at_offset, drain, flushed, flush_behind,
  poll_flush_message, stage, write_behind, poll_write_message,
}

-- The bytes of a message: its length, then the message.
unfoldable pub frame : List ℕ → List ℕ
frame buf = be16 (length buf) ++ buf

-- A frame is parsed as its message, whatever follows it.
pub parse_message-frame :
    (buf rest : List ℕ)
    → length buf < 65536
    → parse_message (frame buf ++ rest) ≡ some (buf, length (frame buf))
unfolding parse_message frame
parse_message-frame buf rest h =
    let n = from_be16-be16 (length buf) h in
    let long : length (buf ++ rest) ≡ length buf + length rest = length-append buf rest in
    ground (
      arith,
      n,
      long,
      slice-append_mid (length buf / 256 % 256 ∷ length buf % 256 ∷ []) buf rest 2 (2 + length buf),
    )

-- What the loop of a flush leaves: what was sent and what is unsent make up the same bytes as before;
-- if it ends well nothing is unsent.
record Drains (out buf : List ℕ) (i : ℕ) (d : Drained) : Type 0 where
  same : d.2.sent ++ drop d.1 buf ≡ out ++ drop i buf
  ends : d.0 ≡ ready (ok tt) → drop d.1 buf ≡ []
  calm : d.0 ≢ ready panic

stops-Drains :
    (out buf : List ℕ) (i : ℕ) (r : Poll (Result (Unit {0}))) (rest : List Answer)
    → r ≢ ready (ok tt)
    → r ≢ ready panic
    → Drains out buf i (r, i, record { answers = rest; sent = out })
stops-Drains out buf i r rest h p = record { same = refl; ends = λ e. absurd (h e); calm = p }

done-Drains :
    (out buf : List ℕ) (i : ℕ) (rest : List Answer)
    → ltb i (length buf) ≡ false
    → Drains out buf i (ready (ok tt), i, record { answers = rest; sent = out })
done-Drains out buf i rest e = record {
  same = refl;
  ends = λ _. drop_all i buf (ground arith);
  calm = λ h. cc;
}

drain-Drains :
    (answers : List Answer) (out buf : List ℕ) (i : ℕ) → Drains out buf i (drain answers out buf i)
unfolding drain
drain-Drains [] out buf i = elim (Bool-cases (ltb i (length buf))) [
  | inl e ↦ rw e (stops-Drains out buf i pending [] (λ h. cc) (λ h. cc))
  | inr e ↦ rw e (done-Drains out buf i [] e)
]
drain-Drains (busy ∷ rest) out buf i = elim (Bool-cases (ltb i (length buf))) [
  | inl e ↦ rw e (stops-Drains out buf i pending rest (λ h. cc) (λ h. cc))
  | inr e ↦ rw e (done-Drains out buf i (busy ∷ rest) e)
]
drain-Drains (fails x ∷ rest) out buf i = elim (Bool-cases (ltb i (length buf))) [
  | inl e ↦ rw e (stops-Drains out buf i (ready (err (Error.device x))) rest (λ h. cc) (λ h. cc))
  | inr e ↦ rw e (done-Drains out buf i (fails x ∷ rest) e)
]
drain-Drains (takes n ∷ rest) out buf i = elim (Bool-cases (ltb i (length buf))) [
  | inr e ↦ rw e (done-Drains out buf i (takes n ∷ rest) e)
  | inl e ↦ rw e (accepted (drain-Drains rest _ buf _))
]
  where
    m : ℕ
    m = min n (length (drop i buf))

    accepted :
        Drains
          (out ++ take m (drop i buf))
          buf
          (i + m)
          (drain rest (out ++ take m (drop i buf)) buf (i + m))
        → Drains out buf i (
            if m == 0
            then (ready (err Error.write_zero), i, record { answers = rest; sent = out })
            else drain rest (out ++ take m (drop i buf)) buf (i + m))
    accepted d = elim (Bool-cases (m == 0)) [
      | inl z ↦
          rw z (stops-Drains out buf i (ready (err Error.write_zero)) rest (λ h. cc) (λ h. cc))
      | inr z ↦ rw z (record {
        same =
            d.same
            ∙ (append_assoc out (take m (drop i buf)) (drop (i + m) buf)
                ∙ ap (λ bs. out ++ bs)
                    (rw (← drop-drop m i buf) (take-append-drop m (drop i buf))));
        ends = d.ends;
        calm = d.calm;
      })
    ]

-- The bytes that a write has promised and the transport has not got.
abbrev pub unsent : VlessMessageStream → List ℕ
unsent st = drop st.write_offset st.pending_write

-- What a flush may leave: if it succeeds all is sent and nothing is pending, else what was sent and
-- what is unsent make up the same bytes.
abbrev pub Flushes : List ℕ → WriteOut → Type 0
Flushes bytes (ready (ok _), st, k) = (k.sent ≡ bytes) × (st.pending_write ≡ [])
Flushes bytes (ready (err e), st, k) = k.sent ++ unsent st ≡ bytes
Flushes bytes (ready panic, st, k) = ⊥
Flushes bytes (pending, st, k) = k.sent ++ unsent st ≡ bytes

flushed-Flushes :
    (st : VlessMessageStream) (bytes : List ℕ) (r : Poll (Result (Unit {0}))) (k : Sink)
    → k.sent ≡ bytes
    → unsent st ≡ []
    → r ≢ ready panic
    → Flushes bytes (flushed st (r, k))
unfolding flushed
flushed-Flushes st bytes pending k h u c = rw (u, append-nil) h
flushed-Flushes st bytes (ready (err x)) k h u c = rw (u, append-nil) h
flushed-Flushes st bytes (ready panic) k h u c = c refl
flushed-Flushes st bytes (ready (ok _)) k h u c = (h, refl)

flush_behind-Flushes :
    (st : VlessMessageStream) (bytes : List ℕ) (d : Drained)
    → d.2.sent ++ drop d.1 st.pending_write ≡ bytes
    → (d.0 ≡ ready (ok tt) → drop d.1 st.pending_write ≡ [])
    → d.0 ≢ ready panic
    → Flushes bytes (flush_behind st d)
unfolding flush_behind
flush_behind-Flushes st bytes (pending, i, k) h e c = h
flush_behind-Flushes st bytes (ready (err x), i, k) h e c = h
flush_behind-Flushes st bytes (ready panic, i, k) h e c = c refl
flush_behind-Flushes st bytes (ready (ok _), i, k) h e c =
    let (same, calm) = poll_done_lem k in
    let none_left = e refl in
    let sent : k.sent ++ [] ≡ bytes = rw none_left at h in
    flushed-Flushes (at_offset st i) bytes _ _ (same ∙ (sym (append-nil k.sent) ∙ sent)) none_left
      calm

-- A flush sends the unsent bytes in order; when it succeeds nothing is pending.
pub poll_flush_message-Sends :
    (st : VlessMessageStream) (k : Sink) → Flushes (k.sent ++ unsent st) (poll_flush_message st k)
unfolding poll_flush_message
poll_flush_message-Sends st k =
    let d = drain-Drains k.answers k.sent st.pending_write st.write_offset in
    flush_behind-Flushes st (k.sent ++ unsent st) _ d.same d.ends d.calm

-- What a write of `buf` may leave, where `bytes` are the sent and the unsent ones. If it succeeds the
-- frame of `buf` stands behind them, whole.
abbrev pub Stages : List ℕ → List ℕ → WriteOut → Type 0
Stages buf bytes (ready (ok _), st, k) =
    (k.sent ++ unsent st ≡ bytes ++ frame buf) × (length buf < 65536)
Stages buf bytes (ready (err e), st, k) = k.sent ++ unsent st ≡ bytes
Stages buf bytes (ready panic, st, k) = ⊥
Stages buf bytes (pending, st, k) = k.sent ++ unsent st ≡ bytes

stage-Stages :
    (buf : List ℕ) (st : VlessMessageStream) (k : Sink) (bytes : List ℕ)
    → st.pending_write ≡ []
    → k.sent ≡ bytes
    → Stages buf bytes (stage buf st k)
unfolding stage
stage-Stages buf st k bytes e h = elim (Bool-cases (ltb 65535 (length buf))) [
  | inl big ↦ rw big (rw (e, drop-nil st.write_offset, append-nil) h)
  | inr fits ↦
      let small : length buf < 65536 = ground arith in
      let low : length buf % 2 ^ 16 ≡ length buf = omega arith in
      rw fits (unfold frame in rw (e, low, h), small)
]

empty-eq-nil : (xs : List ℕ) → (length xs == 0) ≡ true → xs ≡ []
empty-eq-nil [] h = refl
empty-eq-nil (x ∷ xs) h = ground arith

write_behind-Stages :
    (buf : List ℕ) (bytes : List ℕ) (out : WriteOut)
    → Flushes bytes out
    → Stages buf bytes (write_behind buf out)
unfolding write_behind
write_behind-Stages buf bytes (ready (err e), st, k) f = f
write_behind-Stages buf bytes (ready panic, st, k) f = f
write_behind-Stages buf bytes (pending, st, k) f =
    elim (Bool-cases (length st.pending_write == 0)) [
      | inl e ↦
          let none_left = empty-eq-nil st.pending_write e in
          let sent : k.sent ++ [] ≡ bytes = rw (none_left, drop-nil st.write_offset) at f in
          rw e (stage-Stages buf st k bytes none_left (sym (append-nil k.sent) ∙ sent))
      | inr e ↦ rw e f
    ]
write_behind-Stages buf bytes (ready (ok _), st, k) f =
    let z : (length st.pending_write == 0) ≡ true = ap (λ xs. length xs == 0) f.1 in
    simp z (stage-Stages buf st k bytes f.1 f.0)

-- A write of a message: the bytes of the stream stay in order, and the frame is added behind them
-- whole, or not at all. It never panics, and what it adds fits the length field.
pub poll_write_message-Stages :
    (buf : List ℕ) (st : VlessMessageStream) (k : Sink)
    → Stages buf (k.sent ++ unsent st) (poll_write_message buf st k)
unfolding poll_write_message
poll_write_message-Stages buf st k = elim (Bool-cases (length st.pending_write == 0)) [
  | inl e ↦
      let none_left = empty-eq-nil st.pending_write e in
      simp e (
        stage-Stages buf st k (k.sent ++ unsent st) none_left
          (rw (none_left, drop-nil st.write_offset, append-nil)))
  | inr e ↦ simp e (
      write_behind-Stages buf (k.sent ++ unsent st) (poll_flush_message st k)
        (poll_flush_message-Sends st k))
]
