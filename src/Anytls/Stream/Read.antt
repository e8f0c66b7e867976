-- ===== src/Anytls/Stream/Read.antt =====
-- src/anytls/stream.rs, poll_read: what the user of a stream reads.
use rust_proxy.Prelude.{
  ℕ, ◌+◌, ◌-◌, ◌≤◌, ◌<◌, min, ◌≡◌, refl, sym, ap, ◌∙◌, ◌≢◌, inl, inr, true, false, ◌&&◌, List, [],
  ◌∷◌, ◌++◌, append_assoc, arith, ltb, leb, ◌==◌, if◌then◌else◌, leb→le, Bool-cases, length, take,
  drop, length-take, take-append-drop, slice, drop-drop, take_all, drop_all, length-slice, ok, err,
  panic, pending, ready,
}
use rust_proxy.Anytls.Stream.{
  AnyTlsStream, Mail, none_yet, hung_up, message, ReadOut, remaining_in_buffer, from_buffer,
  from_message, received, poll_read,
}

-- What the mail still brings: the messages up to the first empty one, or to the end of the channel.
abbrev pub incoming : List Mail → List ℕ
incoming [] = []
incoming (none_yet ∷ rest) = incoming rest
incoming (hung_up ∷ rest) = []
incoming (message [] ∷ rest) = []
incoming (message (b ∷ bs) ∷ rest) = (b ∷ bs) ++ incoming rest

-- The bytes that a stream has still to give.
abbrev pub unread : AnyTlsStream → List Mail → List ℕ
unread s mail = remaining_in_buffer s ++ (if s.eof then [] else incoming mail)

-- A stream that has seen the end has nothing in its buffer.
pub record IsValid (s : AnyTlsStream) : Type 0 where
  pub inside : s.read_offset ≤ length s.read_buffer
  pub ended : s.eof ≡ true → length s.read_buffer ≤ s.read_offset

-- What a read may give; `ready (ok [])` is the end of the stream, where there was room for a byte.
abbrev pub Reads : AnyTlsStream → ℕ → List Mail → ReadOut → Type 0
Reads s room mail (pending, s', mail') = (unread s' mail' ≡ unread s mail) × IsValid s'
Reads s room mail (ready (ok chunk), s', mail') =
    (chunk ++ unread s' mail' ≡ unread s mail)
    × (length chunk ≤ room)
    × IsValid s'
    × (0 < room → chunk ≡ [] → (s'.eof ≡ true) × (unread s mail ≡ []))
Reads s room mail (ready (err e), s', mail') = ⊥
Reads s room mail (ready panic, s', mail') = ⊥

no_bytes : (bs : List ℕ) → length bs ≡ 0 → bs ≡ []
no_bytes [] h = refl
no_bytes (x ∷ xs) h = absurd (omega arith)

not_empty : (xs ys : List ℕ) → xs ≡ ys → 0 < length xs → ys ≢ []
not_empty xs ys e h f = omega (arith, ap (λ (t : List ℕ). length t) (e ∙ f))

-- The first bytes of a buffer and the rest.
split_off : (n : ℕ) (bs more : List ℕ) → take n bs ++ (drop n bs ++ more) ≡ bs ++ more
split_off n bs more =
    sym (append_assoc (take n bs) (drop n bs) more) ∙ ap (λ t. t ++ more) (take-append-drop n bs)

module _ (s : AnyTlsStream) (v : IsValid s) (room : ℕ) where
  -- What is left in the buffer after `n` bytes of it.
  from_buffer-IsValid :
      (n : ℕ)
      → s.eof ≡ false
      → s.read_offset + n ≤ length s.read_buffer
      → (remaining_in_buffer (from_buffer s n) ≡ drop n (remaining_in_buffer s))
        × ((from_buffer s n).eof ≡ false)
        × IsValid (from_buffer s n)
  unfolding from_buffer
  from_buffer-IsValid n e h = elim (Bool-cases (leb (length s.read_buffer) (s.read_offset + n))) [
    | inl q ↦ rw q (
      sym (drop-drop n s.read_offset s.read_buffer ∙ drop_all _ s.read_buffer (leb→le _ _ q)),
      e,
      record { inside = omega arith; ended = λ _. omega arith },
    )
    | inr q ↦
        rw q
          (sym (drop-drop n s.read_offset s.read_buffer), e, record { inside = h; ended = λ t. cc })
  ]

  buffered :
      (mail : List Mail)
      → s.read_offset < length s.read_buffer
      → (let n = min (length s.read_buffer - s.read_offset) room in
          Reads s room mail (
            ready (ok (slice s.read_buffer s.read_offset (s.read_offset + n))),
            from_buffer s n,
            mail,
          ))
  buffered mail h =
      let n = min (length s.read_buffer - s.read_offset) room in
      let open_still : s.eof ≡ false = elim (Bool-cases s.eof) [
        | inl q ↦ absurd (omega (arith, v.ended q))
        | inr q ↦ q
      ] in
      let (left, e, valid) = from_buffer-IsValid n open_still (omega arith) in
      let z : s.read_offset + n - s.read_offset ≡ n = omega arith in
      let len : length (slice s.read_buffer s.read_offset (s.read_offset + n)) ≡ n =
        omega (arith, length-slice s.read_buffer s.read_offset (s.read_offset + n) (omega arith)) in
      (
        rw (left, e, open_still, z) (split_off n (remaining_in_buffer s) (incoming mail)),
        omega (arith, len),
        valid,
        λ k f. absurd (omega (arith, len, ap (λ (t : List ℕ). length t) f)),
      )

  -- A message that finds the buffer empty.
  arrived :
      (bytes : List ℕ) (rest : List Mail)
      → 0 < length bytes
      → incoming (message bytes ∷ rest) ≡ bytes ++ incoming rest
      → s.eof ≡ false
      → length s.read_buffer ≤ s.read_offset
      → (let n = min (length bytes) room in
          Reads s room
            (message bytes ∷ rest)
            (ready (ok (take n bytes)), from_message s n bytes, rest))
  unfolding from_message
  arrived bytes rest some_bytes brings e h =
      let n = min (length bytes) room in
      let none_left = drop_all s.read_offset s.read_buffer h in
      let len : length (take n bytes) ≡ n = omega (arith, length-take n bytes) in
      let not_nothing : 0 < room → take n bytes ≢ [] =
        λ k f. omega (arith, len, ap (λ (t : List ℕ). length t) f) in
      elim (Bool-cases (ltb n (length bytes))) [
        | inl q ↦ rw q (
          rw (none_left, e, brings) (split_off n bytes (incoming rest)),
          omega (arith, len),
          record { inside = omega arith; ended = λ t. cc },
          λ k f. absurd (not_nothing k f),
        )
        | inr q ↦
            let all : length bytes ≤ n = ground arith in
            rw q (
              rw (none_left, e, brings, take_all n bytes all) refl,
              omega (arith, len),
              v,
              λ k f. absurd (not_nothing k f),
            )
      ]

  received-Reads :
      (mail : List Mail)
      → s.eof ≡ false
      → length s.read_buffer ≤ s.read_offset
      → Reads s room mail (received s room mail)
  unfolding received
  received-Reads [] e h = (refl, v)
  received-Reads (none_yet ∷ rest) e h = (refl, v)
  received-Reads (hung_up ∷ rest) e h =
      let none_left = drop_all s.read_offset s.read_buffer h in
      (
        rw (none_left, e) refl,
        omega arith,
        record { inside = v.inside; ended = λ _. h },
        λ _ _. (refl, rw (none_left, e) refl),
      )
  received-Reads (message [] ∷ rest) e h =
      let none_left = drop_all s.read_offset s.read_buffer h in
      (
        rw (none_left, e) refl,
        omega arith,
        record { inside = v.inside; ended = λ _. h },
        λ _ _. (refl, rw (none_left, e) refl),
      )
  received-Reads (message (b ∷ bs) ∷ rest) e h = arrived (b ∷ bs) rest (omega arith) refl e h

-- A read of a valid stream that is not closed gives the next bytes, in order and not more than there is
-- room for, takes just these from what the stream has still to give, and does not fail; where there was
-- room, a read of nothing is the end, and nothing is unread.
pub poll_read-Reads :
    (s : AnyTlsStream) (room : ℕ) (mail : List Mail)
    → IsValid s
    → s.stream_closed ≡ false
    → Reads s room mail (poll_read s room mail)
unfolding poll_read
poll_read-Reads s room mail v c =
    let left = length s.read_buffer - s.read_offset in
    elim (Bool-cases (s.eof && (left == 0))) [
      | inl q ↦
          let e : s.eof ≡ true = ground arith in
          let none_left = drop_all s.read_offset s.read_buffer (v.ended e) in
          simp (c, q) (refl, omega arith, v, λ _ _. (e, rw (none_left, e) refl))
      | inr q ↦ elim (Bool-cases (ltb 0 left)) [
        | inl f ↦
            let l : s.read_offset < length s.read_buffer = ground arith in
            simp (c, q, f) (buffered s v room mail l)
        | inr f ↦
            let e : s.eof ≡ false = ground arith in
            simp (c, q, f) (received-Reads s v room mail e (ground arith))
      ]
    ]
