-- ===== src/Message/PacketAddr/Delivery.antt =====
-- src/message_stream.rs, PacketAddrStream::poll_read_targeted_message: a packet that is at hand is delivered.
use rust_proxy.Prelude.{
  ℕ, zero, suc, ◌+◌, ◌≤◌, ◌<◌, ◌≡◌, refl, sym, ap, ◌∙◌, subst, inl, inr, false, none, some, List,
  [], ◌∷◌, ◌++◌, append-nil, append_assoc, arith, ltb, ◌==◌, length, slice, Arrival, at_hand,
  poll_read-Hands, ok, err, Result-cases, ready, slice-append_le,
}
use rust_proxy.Address.{NetLocation}
use rust_proxy.Message.SlideBuffer.{
  SlideBuffer, IsValid, as_slice, length-as_slice, as_slice-advance_write, length-maybe_compact,
  remaining_capacity, maybe_compact, advance_write, write_slice, consume,
}
use rust_proxy.Message.PacketAddr.{
  PacketAddrStream, ReadOut, try_parse_packet, received, fill, parsed, read_turn, read_loop,
  poll_read_targeted_message,
}
use rust_proxy.Message.PacketAddr.Read.{
  try_parse_packet-append, try_parse_packet-le, try_parse_packet_short, try_parse_packet-ne-panic,
  try_parse_packet-append_err, Delivers, Grows, Sound, compacted, compacted-IsValid,
  as_slice-compacted, read_turn-Sound, poll_read_targeted_message-Sound,
}

maybe_compact_le : (b : SlideBuffer) (t : ℕ) → (maybe_compact b t).start ≤ b.start
unfolding maybe_compact
maybe_compact_le b t = ground arith

-- The packet at the front of the buffer and of more bytes fits the memory, behind what a read may move.
abbrev pub Fits : PacketAddrStream → ℕ → Type 0
Fits st reach = (maybe_compact st.read_buf 4096).start + reach ≤ length st.read_buf.bytes

module _ (st : PacketAddrStream) (v : IsValid st.read_buf) (room : ℕ) (es : List Arrival)
    (l : NetLocation) (s n : ℕ) where
  -- A whole packet at the front of the buffer goes to a caller with room for it.
  handed :
      (more : List ℕ)
      → try_parse_packet (as_slice st.read_buf) ≡ ok (some (l, s, n))
      → length st.read_buf.bytes ≤ room
      → (st' : PacketAddrStream) × (es' : List Arrival) × (read_turn room st es
          ≡ inl (ready (ok (l, slice (as_slice st.read_buf ++ more) s (s + n))), st', es'))
  unfolding read_turn parsed
  handed more e h =
      let bytes = as_slice st.read_buf in
      let (inside, _) = try_parse_packet-le bytes l s n e in
      let live : length bytes ≤ room = omega (arith, length-as_slice v, v.inside) in
      let small : ltb room n ≡ false = ground (arith, live, inside) in
      let st' : PacketAddrStream = record st { read_buf = consume st.read_buf (s + n) } in
      (
        st',
        es,
        rw (e, small)
            (ap (λ (t : List ℕ). inl (ready (ok (l, t)), st', es))
              (sym (slice-append_le bytes more s (s + n) inside))),
      )

  -- Where more bytes than those in the buffer are needed, there are some at hand.
  some_hand :
      (more : List ℕ)
      → try_parse_packet (as_slice st.read_buf) ≡ ok none
      → try_parse_packet (as_slice st.read_buf ++ more) ≡ ok (some (l, s, n))
      → 0 < length more
  some_hand [] e p = absurd (let q = rw append-nil at p in cc)
  some_hand (x ∷ xs) e p = omega arith

  -- A turn that takes bytes at hand into the buffer.
  extended :
      try_parse_packet (as_slice st.read_buf) ≡ ok none
      → try_parse_packet (as_slice st.read_buf ++ at_hand es) ≡ ok (some (l, s, n))
      → Fits st (s + n)
      → (st' : PacketAddrStream) × (es' : List Arrival) × (read_turn room st es ≡ inr (st', es'))
        × (as_slice st'.read_buf ++ at_hand es' ≡ as_slice st.read_buf ++ at_hand es)
  extended e p fits =
      let b = compacted st v in
      let valid = compacted-IsValid st v in
      let same = as_slice-compacted st v in
      let short = try_parse_packet_short (as_slice st.read_buf) (at_hand es) l s n e p in
      let free : 0 < remaining_capacity b = omega (
        arith,
        short,
        fits,
        length-as_slice valid,
        ap (λ (t : List ℕ). length t) same,
        length-maybe_compact 4096 v,
        valid.ordered,
      ) in
      let left : (remaining_capacity b == 0) ≡ false = ground (arith, free) in
      let (x, xs, rest, q, h, z) =
        poll_read-Hands (remaining_capacity b) es free (some_hand (at_hand es) e p) in
      let st' : PacketAddrStream = record st {
        read_buf = advance_write (write_slice b (x ∷ xs)) (length (x ∷ xs));
      } in
      (
        st',
        rest,
        unfold read_turn parsed fill received in rw (e, left, q) refl,
        ap (λ bs. bs ++ at_hand rest) (as_slice-advance_write (x ∷ xs) valid h)
            ∙ (append_assoc (as_slice b) (x ∷ xs) (at_hand rest)
                ∙ (ap (λ bs. as_slice b ++ bs) z ∙ ap (λ bs. bs ++ at_hand es) same)),
      )

read_loop-Hands :
    (fuel room : ℕ) (st : PacketAddrStream) (es : List Arrival) (l : NetLocation) (s n : ℕ)
    → IsValid st.read_buf
    → length st.read_buf.bytes ≤ room
    → length st.read_buf.bytes < fuel + length (as_slice st.read_buf)
    → try_parse_packet (as_slice st.read_buf ++ at_hand es) ≡ ok (some (l, s, n))
    → Fits st (s + n)
    → (st' : PacketAddrStream) × (es' : List Arrival) × (read_loop fuel room st es
        ≡ some (ready (ok (l, slice (as_slice st.read_buf ++ at_hand es) s (s + n))), st', es'))
read_loop-Hands zero room st es l s n v h f p fits =
    absurd (omega (arith, length-as_slice v, v.inside))
read_loop-Hands (suc fuel) room st es l s n v h f p fits =
    elim (Result-cases (try_parse_packet (as_slice st.read_buf))) [
      | inl (none, e) ↦
          let (st', es', t, same) = extended st v room es l s n e p fits in
          let g : Grows st es st' es' =
            subst (λ t. Sound st es t) t (read_turn-Sound st v room es h) in
          let (st'', es'', r) =
            read_loop-Hands fuel room st' es' l s n g.valid (omega (arith, h, g.memory))
              (omega (arith, f, g.memory, g.more)) (rw same p)
              (omega (arith, fits, g.memory, g.starts, maybe_compact_le st'.read_buf 4096)) in
          (
            st'',
            es'',
            next st' es' t r
                ∙ ap (λ (bs : List ℕ). some (ready (ok (l, slice bs s (s + n))), st'', es'')) same,
          )
      | inl (some (l', s', n'), e) ↦
          let q : (l', s', n') ≡ (l, s, n) =
            let z = sym (try_parse_packet-append _ (at_hand es) l' s' n' e) ∙ p in cc in
          let e' = e ∙ ap (λ t. ok (some t)) q in
          let (st', es', t) = handed st v room es l s n (at_hand es) e' h in (st', es', stop t)
      | inr (inl (x, e)) ↦ absurd (broken x e)
      | inr (inr e) ↦ absurd (try_parse_packet-ne-panic _ e)
    ]
  where
    stop : {o : ReadOut} → read_turn room st es ≡ inl o → read_loop (suc fuel) room st es ≡ some o
    stop t = unfold read_loop in rw (t, read_loop) refl

    next :
        {o : ReadOut} (st' : PacketAddrStream) (es' : List Arrival)
        → read_turn room st es ≡ inr (st', es')
        → read_loop fuel room st' es' ≡ some o
        → read_loop (suc fuel) room st es ≡ some o
    next st' es' t r = unfold read_loop in rw (t, read_loop) r

    broken : (x : _) → try_parse_packet (as_slice st.read_buf) ≡ err x → ⊥
    broken x e = let z = sym (try_parse_packet-append_err _ (at_hand es) x e) ∙ p in cc

-- A read with room for the whole buffer returns, never panics, and delivers the packets of the byte stream one
-- by one: a packet that it returns is the one at the front of the undelivered bytes, and just its bytes are
-- taken off; no other answer takes a byte; and an empty packet for the end stands only where an earlier read has
-- met the end or the end is to come. Where no end was met, the buffer and the bytes that the transport has at
-- hand hold a whole packet, and it fits the memory behind what compaction leaves in front, the read returns it,
-- however the transport cuts the bytes into pieces.
pub poll_read_targeted_message-Delivers :
    (room : ℕ) (st : PacketAddrStream) (es : List Arrival)
    → IsValid st.read_buf
    → length st.read_buf.bytes ≤ room
    → (out : ReadOut) × (poll_read_targeted_message room st es ≡ some out)
      × Delivers st es out
      × ((l : NetLocation) (s n : ℕ)
          → st.is_eof ≡ false
          → try_parse_packet (as_slice st.read_buf ++ at_hand es) ≡ ok (some (l, s, n))
          → Fits st (s + n)
          → out.0 ≡ ready (ok (l, slice (as_slice st.read_buf ++ at_hand es) s (s + n))))
poll_read_targeted_message-Delivers room st es v h =
    let (out, e, d) = poll_read_targeted_message-Sound room st es v h in
    (out, e, d, handed_out out e)
  where
    handed_out :
        (out : ReadOut)
        → poll_read_targeted_message room st es ≡ some out
        → (l : NetLocation) (s n : ℕ) → st.is_eof ≡ false
        → try_parse_packet (as_slice st.read_buf ++ at_hand es) ≡ ok (some (l, s, n))
        → Fits st (s + n)
        → out.0 ≡ ready (ok (l, slice (as_slice st.read_buf ++ at_hand es) s (s + n)))
    handed_out out e l s n o p fits =
        let (st', es', q) =
          read_loop-Hands (length st.read_buf.bytes + 1) room st es l s n v h (omega arith) p
            fits in
        let z : some out
            ≡ some
                (ready (ok (l, slice (as_slice st.read_buf ++ at_hand es) s (s + n))), st', es') =
          sym e ∙ (unfold poll_read_targeted_message in simp o q) in
        let w : out
            ≡ (ready (ok (l, slice (as_slice st.read_buf ++ at_hand es) s (s + n))), st', es') =
          cc in
        ap (λ t. t.0) w
