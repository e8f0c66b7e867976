-- ===== src/Message/Vless/Read.antt =====
-- src/message_stream.rs, VlessMessageStream::poll_read_message: what a read returns.
use rust_proxy.Prelude.{
  ℕ, zero, suc, ◌+◌, ◌-◌, ◌≤◌, ◌<◌, ◌≡◌, refl, sym, ap, ◌∙◌, subst, ◌⊎◌, inl, inr, Bool, has_end,
  ahead, ahead_of, ahead-keep, true, false, ◌&&◌, Option, none, some, List, [], ◌∷◌, ◌++◌,
  append_assoc, arith, ltb, leb, ◌==◌, if◌then◌else◌, Bool-cases, length, get_or, take, drop,
  length-append, length-take, drop-append_le, IsByte, All, from_be16, slice, write_at, drop_all,
  length-slice, length-write_at, take-write_at_end, slice-eq, Arrival, not_yet, breaks, arrives,
  poll_read, arriving, keep, arriving-keep, ok, err, panic, pending, ready, get_or-append_lt,
  slice-append_le, get_or-take, slice-take, take-write_at_start, All-get_or, All-append_left,
}
use rust_proxy.Message.Vless.{
  VlessMessageStream, ReadOut, Turn, received, fill, deliver, read_turn, read_loop,
  poll_read_message,
}

-- The message at the front of a byte stream, and what it takes of the stream.
unfoldable pub parse_message : List ℕ → Option (List ℕ × ℕ)
parse_message bytes =
    let len = from_be16 (get_or bytes 0 0) (get_or bytes 1 0) in
    if leb 2 (length bytes) && leb (2 + len) (length bytes)
    then some (slice bytes 2 (2 + len), 2 + len)
    else none

pub parse_message-append :
    (bytes more : List ℕ) (m : List ℕ) (n : ℕ)
    → parse_message bytes ≡ some (m, n)
    → (parse_message (bytes ++ more) ≡ some (m, n)) × (n ≤ length bytes)
unfolding parse_message
parse_message-append bytes more m n h = ground (
  arith,
  length-append bytes more,
  get_or-append_lt 0 bytes more 0,
  get_or-append_lt 1 bytes more 0,
  slice-append_le bytes more 2 n,
)

pub record IsValid (st : VlessMessageStream) : Type 0 where
  pub inside : st.read_end_index ≤ length st.read_buf
  pub capacity : 65537 ≤ length st.read_buf

abbrev pub live : VlessMessageStream → List ℕ
live st = take st.read_end_index st.read_buf

-- The bytes that have not been delivered: those in the buffer, then those that arrive.
abbrev pub undelivered : VlessMessageStream → List Arrival → List ℕ
undelivered st es = live st ++ arriving es

-- What a read into `room` bytes may return where `bytes` are undelivered, `eof` says whether an earlier read
-- has met the end, and `ending` whether the end is to come: an empty message stands for the end, which leaves
-- no part of a message.
abbrev pub DeliversFrom : Bool → Bool → List ℕ → ReadOut → Type 0
DeliversFrom eof ending bytes (pending, st', es') = undelivered st' es' ≡ bytes
DeliversFrom eof ending bytes (ready (err e), st', es') = undelivered st' es' ≡ bytes
DeliversFrom eof ending bytes (ready panic, st', es') = ⊥
DeliversFrom eof ending bytes (ready (ok message), st', es') =
    ((st'.is_eof ≡ true)
      × (message ≡ [])
      × (undelivered st' es' ≡ bytes)
      × ((eof ≡ true) ⊎ ((ending ≡ true) × (st'.read_end_index ≡ 0))))
    ⊎ ((n : ℕ) × (parse_message bytes ≡ some (message, n)) × (undelivered st' es' ≡ drop n bytes))

pub record Grows (st : VlessMessageStream) (es : List Arrival) (st' : VlessMessageStream)
    (es' : List Arrival) : Type 0 where
  pub same : undelivered st' es' ≡ undelivered st es
  pub ending : has_end es' ≡ has_end es
  pub valid : IsValid st'
  pub memory : length st'.read_buf ≡ length st.read_buf
  pub more : st.read_end_index < st'.read_end_index

abbrev pub Sound : VlessMessageStream → List Arrival → Turn → Type 0
Sound st es (inl out) = DeliversFrom false (has_end es) (undelivered st es) out
Sound st es (inr (st', es')) = Grows st es st' es'

module _ (st : VlessMessageStream) (v : IsValid st) where
  pub length-live : length (live st) ≡ st.read_end_index
  length-live = omega (arith, length-take st.read_end_index st.read_buf, v.inside)

  received_chunk :
      (chunk : List ℕ) (es es' : List Arrival)
      → length chunk ≤ length st.read_buf - st.read_end_index
      → chunk ++ arriving es' ≡ arriving es
      → ahead false es ≡ ahead_of chunk es'
      → Sound st es (received st (ready (ok chunk), es'))
  unfolding received
  received_chunk [] es es' h e f = elim (Bool-cases (st.read_end_index == 0)) [
    | inl z ↦ simp z (
        inl (
          refl,
          refl,
          ap (λ bs. live st ++ bs) e,
          inr (ap (λ (a : List ℕ × Bool). a.1) f, ground arith),
        ))
    | inr z ↦ simp z (ap (λ bs. live st ++ bs) e)
  ]
  received_chunk (x ∷ xs) es es' h e f =
      let fits : st.read_end_index + length (x ∷ xs) ≤ length st.read_buf =
        omega (arith, v.inside) in
      let memory = length-write_at st.read_buf st.read_end_index (x ∷ xs) fits in
      record {
        same =
            ap (λ bs. bs ++ arriving es')
              (take-write_at_end st.read_buf st.read_end_index (x ∷ xs) fits)
            ∙ (append_assoc (live st) (x ∷ xs) (arriving es') ∙ ap (λ bs. live st ++ bs) e);
        ending = sym (ap (λ (a : List ℕ × Bool). a.1) f);
        valid = omega (arith, memory, v.capacity);
        memory = memory;
        more = omega arith;
      }

  answered :
      (es : List Arrival)
      → 0 < length st.read_buf - st.read_end_index
      → Sound st es (received st (poll_read (length st.read_buf - st.read_end_index) es))
  unfolding received
  answered [] h = refl
  answered (not_yet ∷ es) h = refl
  answered (breaks x ∷ es) h = refl
  answered (arrives bs ∷ es) h =
      let room = length st.read_buf - st.read_end_index in
      received_chunk (take room bs) (arrives bs ∷ es) (keep room bs es)
        (omega (arith, length-take room bs)) (arriving-keep room bs es) (ahead-keep room bs es h)

  pub header : (i : ℕ) → i < st.read_end_index → get_or (live st) i 0 ≡ get_or st.read_buf i 0
  header i h = get_or-take st.read_end_index i st.read_buf 0 h

  module _ (len : ℕ) (e : len ≡ from_be16 (get_or st.read_buf 0 0) (get_or st.read_buf 1 0))
      (h : 2 + len ≤ st.read_end_index) where
    pub parse_message-live : parse_message (live st) ≡ some (slice st.read_buf 2 (2 + len), 2 + len)
    unfolding parse_message
    parse_message-live = ground (
      arith,
      header 0,
      header 1,
      length-live,
      slice-take st.read_end_index 2 (2 + len) st.read_buf,
    )

    -- What stands behind the message, and how it is kept.
    live_rest : slice st.read_buf (2 + len) st.read_end_index ≡ drop (2 + len) (live st)
    live_rest = slice-eq st.read_buf (2 + len) st.read_end_index

    moved :
        let rest = slice st.read_buf (2 + len) st.read_end_index in
        take (st.read_end_index - (2 + len)) (write_at st.read_buf 0 rest)
        ≡ drop (2 + len) (live st)
    moved =
        let rest = slice st.read_buf (2 + len) st.read_end_index in
        let n : length rest ≡ st.read_end_index - (2 + len) =
          length-slice st.read_buf (2 + len) st.read_end_index v.inside in
        ap (λ k. take k (write_at st.read_buf 0 rest)) (sym n)
        ∙ (take-write_at_start st.read_buf rest ∙ live_rest)

    delivered : (room : ℕ) (es : List Arrival) → Sound st es (deliver room len st es)
    unfolding deliver
    delivered room es =
        let (parsed, inside) =
          parse_message-append (live st) (arriving es) _ _ parse_message-live in
        let behind = sym (drop-append_le (2 + len) (live st) (arriving es) inside) in
        elim (Bool-cases (ltb room len)) [
          | inl small ↦ rw small refl
          | inr fits ↦ rw fits (elim (Bool-cases (ltb (2 + len) st.read_end_index)) [
            | inl more ↦
                rw more (inr (2 + len, parsed, ap (λ bs. bs ++ arriving es) moved ∙ behind))
            | inr last ↦
                let all : length (live st) ≤ 2 + len = ground (arith, length-live) in
                rw last (
                  inr (
                    2 + len,
                    parsed,
                    ap (λ bs. bs ++ arriving es) (sym (drop_all (2 + len) (live st) all)) ∙ behind,
                  ))
          ])
        ]

  -- The buffer is never full without a whole message: the assertion holds.
  pub never_full :
      (es : List Arrival)
      → All IsByte (undelivered st es)
      → (st.read_end_index < 2)
        ⊎ (st.read_end_index < 2 + from_be16 (get_or st.read_buf 0 0) (get_or st.read_buf 1 0))
      → 0 < length st.read_buf - st.read_end_index
  never_full es b s =
      let bytes = All-append_left IsByte (live st) (arriving es) b in
      let low = All-get_or (live st) 0 bytes in
      let high = All-get_or (live st) 1 bytes in
      ground (arith, v.inside, v.capacity, low, high, header 0, header 1)

  pub read_turn-Sound :
      (room : ℕ) (es : List Arrival)
      → All IsByte (undelivered st es)
      → Sound st es (read_turn room st es)
  unfolding read_turn
  read_turn-Sound room es b =
      let len = from_be16 (get_or st.read_buf 0 0) (get_or st.read_buf 1 0) in
      elim (Bool-cases (leb 2 st.read_end_index && leb (2 + len) st.read_end_index)) [
        | inl e ↦ rw e (delivered len refl (ground arith) room es)
        | inr e ↦
            let free = never_full es b (ground arith) in
            let room_left : ((length st.read_buf - st.read_end_index) == 0) ≡ false =
              ground (arith, free) in
            rw e (unfold fill in rw room_left (answered es free))
      ]

abbrev Finishes : ℕ → ℕ → VlessMessageStream → List Arrival → Type 0
Finishes fuel room st es =
    (out : ReadOut) × (read_loop fuel room st es ≡ some out)
    × DeliversFrom false (has_end es) (undelivered st es) out

read_loop-Finishes :
    (fuel room : ℕ) (st : VlessMessageStream) (es : List Arrival)
    → IsValid st
    → All IsByte (undelivered st es)
    → length st.read_buf < fuel + st.read_end_index
    → Finishes fuel room st es
read_loop-Finishes zero room st es v b f = absurd (omega (arith, v.inside))
read_loop-Finishes (suc fuel) room st es v b f =
    turned (read_loop-Finishes fuel room) (read_turn room st es) refl
      (read_turn-Sound st v room es b)
  where
    turned :
        ((st' : VlessMessageStream) (es' : List Arrival)
          → IsValid st'
          → All IsByte (undelivered st' es')
          → length st'.read_buf < fuel + st'.read_end_index
          → Finishes fuel room st' es')
        → (t : Turn) → read_turn room st es ≡ t
        → Sound st es t
        → Finishes (suc fuel) room st es
    turned ih (inl out) e d = (out, unfold read_loop in rw (e, read_loop), d)
    turned ih (inr (st', es')) e g =
        let memory = g.memory in
        let more = g.more in
        let (out, r, d) = ih st' es' g.valid (rw g.same b) (omega arith) in
        let d' = subst (λ b. DeliversFrom false b (undelivered st' es') out) g.ending d in
        (
          out,
          unfold read_loop in rw (e, read_loop) r,
          subst (λ bs. DeliversFrom false (has_end es) bs out) g.same d',
        )

pub poll_read_message-Sound :
    (room : ℕ) (st : VlessMessageStream) (es : List Arrival)
    → IsValid st
    → All IsByte (undelivered st es)
    → (out : ReadOut) × (poll_read_message room st es ≡ some out)
      × DeliversFrom st.is_eof (has_end es) (undelivered st es) out
unfolding poll_read_message
poll_read_message-Sound room st es v b = elim (Bool-cases st.is_eof) [
  | inl e ↦ ((ready (ok []), st, es), rw e refl, inl (e, refl, refl, inl e))
  | inr e ↦
      let (out, r, d) = read_loop-Finishes (length st.read_buf + 1) room st es v b (omega arith) in
      (out, simp e r, subst (λ o. DeliversFrom o (has_end es) (undelivered st es) out) (sym e) d)
]
