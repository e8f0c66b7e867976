-- ===== src/Message/Vless/Delivery.antt =====
-- src/message_stream.rs, VlessMessageStream::poll_read_message: a message that is at hand is delivered.
use rust_proxy.Prelude.{
  ℕ, zero, suc, ◌+◌, ◌-◌, ◌≤◌, ◌<◌, ◌≡◌, refl, sym, ap, ◌∙◌, subst, inl, inr, Bool, true, false,
  ◌&&◌, some, List, [], ◌∷◌, ◌++◌, append-nil, append_assoc, arith, ltb, leb, ◌==◌, Bool-cases,
  length, get_or, IsByte, All, from_be16, slice, write_at, length-slice, Arrival, at_hand,
  poll_read-Hands, has_end, ok, ready, take-write_at_end,
}
use rust_proxy.Message.Vless.{
  VlessMessageStream, ReadOut, extend, received, fill, deliver, read_turn, read_loop,
  poll_read_message,
}
use rust_proxy.Message.Vless.Read.{
  parse_message, parse_message-append, IsValid, live, undelivered, DeliversFrom, Grows, Sound,
  length-live, header, parse_message-live, never_full, read_turn-Sound, poll_read_message-Sound,
}

module _ (st : VlessMessageStream) (v : IsValid st) (room : ℕ) (es : List Arrival) where
  abbrev payload_len : ℕ
  payload_len = from_be16 (get_or st.read_buf 0 0) (get_or st.read_buf 1 0)

  -- The message at the front of the buffer goes to a caller with room for it.
  handed :
      (more m : List ℕ) (n : ℕ)
      → 2 + payload_len ≤ st.read_end_index
      → parse_message (live st ++ more) ≡ some (m, n)
      → length m ≤ room
      → (st' : VlessMessageStream) × (es' : List Arrival) × (deliver room payload_len st es
          ≡ inl (ready (ok m), st', es'))
  unfolding deliver
  handed more m n h p fits =
      let (q, _) =
        parse_message-append (live st) more _ _ (parse_message-live st v payload_len refl h) in
      let e : slice st.read_buf 2 (2 + payload_len) ≡ m = let z = sym q ∙ p in cc in
      let l : length m ≡ payload_len =
        ap (λ (t : List ℕ). length t) (sym e)
        ∙ (length-slice st.read_buf 2 (2 + payload_len) (omega (arith, h, v.inside))
            ∙ omega arith) in
      let small : ltb room payload_len ≡ false = ground (arith, l, fits) in
      elim (Bool-cases (ltb (2 + payload_len) st.read_end_index)) [
        | inl more ↦
            let rest = slice st.read_buf (2 + payload_len) st.read_end_index in
            let st' : VlessMessageStream = record st {
              read_buf = write_at st.read_buf 0 rest;
              read_end_index = st.read_end_index - (2 + payload_len);
            } in
            (st', es, simp (small, more) (ap (λ t. inl (ready (ok t), st', es)) e))
        | inr last ↦
            let st' : VlessMessageStream = record st { read_end_index = 0 } in
            (st', es, simp (small, last) (ap (λ t. inl (ready (ok t), st', es)) e))
      ]

  abbrev whole : Bool
  whole = leb 2 st.read_end_index && leb (2 + payload_len) st.read_end_index

  -- Where the buffer has no whole message, but has one with the bytes at hand, there are such bytes.
  some_hand :
      (more m : List ℕ) (n : ℕ)
      → whole ≡ false
      → parse_message (live st ++ more) ≡ some (m, n)
      → 0 < length more
  some_hand [] m n w p =
      let q : parse_message (live st) ≡ some (m, n) = rw (append-nil) at p in
      absurd (
        unfold parse_message in
        ground (arith, q, w, header st v 0, header st v 1, length-live st v))
  some_hand (x ∷ xs) m n w p = omega arith

  -- A turn that takes bytes at hand into the buffer.
  extended :
      whole ≡ false
      → All IsByte (undelivered st es)
      → 0 < length (at_hand es)
      → (st' : VlessMessageStream) × (es' : List Arrival) × (read_turn room st es ≡ inr (st', es'))
        × (live st' ++ at_hand es' ≡ live st ++ at_hand es)
  extended w b h =
      let free = never_full st v es b (ground (arith, w)) in
      let (x, xs, rest, q, fits, p) = poll_read-Hands _ es free h in
      let left : ((length st.read_buf - st.read_end_index) == 0) ≡ false = ground (arith, free) in
      (
        extend st (x ∷ xs),
        rest,
        unfold read_turn fill received in rw (w, left, q) refl,
        ap (λ bs. bs ++ at_hand rest)
              (take-write_at_end st.read_buf st.read_end_index (x ∷ xs)
                (omega (arith, v.inside, fits)))
            ∙ (append_assoc (live st) (x ∷ xs) (at_hand rest) ∙ ap (λ bs. live st ++ bs) p),
      )

read_loop-Hands :
    (fuel room : ℕ) (st : VlessMessageStream) (es : List Arrival) (m : List ℕ) (n : ℕ)
    → IsValid st
    → All IsByte (undelivered st es)
    → length st.read_buf < fuel + st.read_end_index
    → parse_message (live st ++ at_hand es) ≡ some (m, n)
    → length m ≤ room
    → (st' : VlessMessageStream) × (es' : List Arrival) × (read_loop fuel room st es
        ≡ some (ready (ok m), st', es'))
read_loop-Hands zero room st es m n v b f p fits = absurd (omega (arith, v.inside))
read_loop-Hands (suc fuel) room st es m n v b f p fits = elim (Bool-cases (whole st v room es)) [
  | inl e ↦
      let (st', es', q) = handed st v room es (at_hand es) m n (ground arith) p fits in
      (st', es', stop st' es' e q)
  | inr e ↦
      let h = some_hand st v room es (at_hand es) m n e p in
      let (st', es', t, same) = extended st v room es e b h in
      let g : Grows st es st' es' = subst (λ t. Sound st es t) t (read_turn-Sound st v room es b) in
      let (st'', es'', r) =
        read_loop-Hands fuel room st' es' m n g.valid (rw g.same b)
          (omega (arith, f, g.memory, g.more)) (rw same p) fits in
      (st'', es'', next st' es' t r)
]
  where
    stop :
        (st' : VlessMessageStream) (es' : List Arrival)
        → whole st v room es ≡ true
        → deliver room (payload_len st v room es) st es ≡ inl (ready (ok m), st', es')
        → read_loop (suc fuel) room st es ≡ some (ready (ok m), st', es')
    stop st' es' e q =
        let t : read_turn room st es ≡ inl (ready (ok m), st', es') = unfold read_turn in rw e q in
        unfold read_loop in rw (t, read_loop) refl

    next :
        {o : ReadOut} (st' : VlessMessageStream) (es' : List Arrival)
        → read_turn room st es ≡ inr (st', es')
        → read_loop fuel room st' es' ≡ some o
        → read_loop (suc fuel) room st es ≡ some o
    next st' es' t r = unfold read_loop in rw (t, read_loop) r

-- Where the transport delivers bytes, a read returns: its assertion never fails and its loop ends. A
-- message that it returns is the one at the front of the undelivered bytes, and just its bytes are taken off;
-- no other answer takes a byte; and an empty message for the end stands only where an earlier read has met the
-- end, or where the end is to come and the buffer holds no part of a message. Where no end was met, and the
-- buffer and the bytes that the transport has at hand hold a whole message that fits the caller's room, the
-- read returns it, however the transport cuts them into pieces.
pub poll_read_message-Delivers :
    (room : ℕ) (st : VlessMessageStream) (es : List Arrival)
    → IsValid st
    → All IsByte (undelivered st es)
    → (out : ReadOut) × (poll_read_message room st es ≡ some out)
      × DeliversFrom st.is_eof (has_end es) (undelivered st es) out
      × ((m : List ℕ) (n : ℕ)
          → st.is_eof ≡ false
          → parse_message (live st ++ at_hand es) ≡ some (m, n)
          → length m ≤ room
          → out.0 ≡ ready (ok m))
poll_read_message-Delivers room st es v b =
    let (out, e, d) = poll_read_message-Sound room st es v b in (out, e, d, handed_out out e)
  where
    handed_out :
        (out : ReadOut)
        → poll_read_message room st es ≡ some out
        → (m : List ℕ) (n : ℕ) → st.is_eof ≡ false
        → parse_message (live st ++ at_hand es) ≡ some (m, n)
        → length m ≤ room
        → out.0 ≡ ready (ok m)
    handed_out out e m n o p fits =
        let (st', es', q) =
          read_loop-Hands (length st.read_buf + 1) room st es m n v b (omega arith) p fits in
        let z : some out ≡ some (ready (ok m), st', es') =
          sym e ∙ (unfold poll_read_message in simp o q) in
        let w : out ≡ (ready (ok m), st', es') = cc in ap (λ t. t.0) w
