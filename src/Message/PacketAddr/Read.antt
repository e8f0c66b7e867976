-- ===== src/Message/PacketAddr/Read.antt =====
-- src/message_stream.rs, PacketAddrStream::poll_read_targeted_message: what a read returns.
use rust_proxy.Prelude.{
  ℕ, zero, suc, ◌+◌, ◌≤◌, ◌<◌, ◌≡◌, refl, sym, ap, ap₂, ◌∙◌, subst, ◌≢◌, ◌⊎◌, inl, inr, Bool,
  has_end, ahead, ahead_of, ahead-keep, true, false, none, some, List, [], ◌∷◌, ◌++◌, append_assoc,
  arith, ltb, ◌==◌, Bool-cases, length, take, drop, length-append, length-take, drop-append_le,
  slice, Arrival, not_yet, breaks, arrives, poll_read, arriving, keep, arriving-keep, Error, ok,
  err, panic, Result-cases, pending, ready, get_or-append_lt, slice-append_le,
}
use rust_proxy.Address.{NetLocation, unspecified}
use rust_proxy.Message.SlideBuffer.{
  SlideBuffer, IsValid, as_slice, as_slice-maybe_compact, maybe_compact-IsValid,
  length-maybe_compact, length-as_slice, advance_write, write_slice, as_slice-advance_write,
  advance_write-IsValid, length-advance_write, as_slice-consume, remaining_capacity, maybe_compact,
}
use rust_proxy.Message.UotAddress.{
  parse_uot_address, parse_uot_address-append, parse_uot_address_short,
  parse_uot_address-append_err, parse_uot_address-ne-panic,
}
use rust_proxy.Message.PacketAddr.{
  PacketAddrStream, ReadOut, Turn, try_parse_packet, received, fill, parsed, read_turn, read_loop,
  poll_read_targeted_message,
}

-- Bytes behind a whole packet do not change how it is parsed.
pub try_parse_packet-append :
    (bytes more : List ℕ) (l : NetLocation) (s n : ℕ)
    → try_parse_packet bytes ≡ ok (some (l, s, n))
    → try_parse_packet (bytes ++ more) ≡ ok (some (l, s, n))
unfolding try_parse_packet
try_parse_packet-append bytes more l s n h = elim (Result-cases (parse_uot_address bytes)) [
  | inl (none, e) ↦ cc (rw e at h)
  | inl (some (l', a), e) ↦ ground (
    arith,
    parse_uot_address-append bytes more l' a e,
    length-append bytes more,
    get_or-append_lt a bytes more 0,
    get_or-append_lt (a + 1) bytes more 0,
  )
  | inr (inl (x, e)) ↦ cc (rw e at h)
  | inr (inr e) ↦ cc (rw e at h)
]

-- A packet that was parsed lies in the buffer.
pub try_parse_packet-le :
    (bytes : List ℕ) (l : NetLocation) (s n : ℕ)
    → try_parse_packet bytes ≡ ok (some (l, s, n))
    → (s + n ≤ length bytes) × (0 < s)
unfolding try_parse_packet
try_parse_packet-le bytes l s n h = ground arith

-- A packet that needs more input reaches behind the bytes that are there.
pub try_parse_packet_short :
    (bytes more : List ℕ) (l : NetLocation) (s n : ℕ)
    → try_parse_packet bytes ≡ ok none
    → try_parse_packet (bytes ++ more) ≡ ok (some (l, s, n))
    → length bytes < s + n
unfolding try_parse_packet
try_parse_packet_short bytes more l s n h k = elim (Result-cases (parse_uot_address bytes)) [
  | inl (none, e) ↦ elim (Result-cases (parse_uot_address (bytes ++ more))) [
    | inl (none, d) ↦ absurd (cc (rw d at k))
    | inl (some (l', a), d) ↦ ground (arith, parse_uot_address_short bytes more l' a e d)
    | inr (inl (x, d)) ↦ absurd (cc (rw d at k))
    | inr (inr d) ↦ absurd (cc (rw d at k))
  ]
  | inl (some (l', a), e) ↦ ground (
    arith,
    parse_uot_address-append bytes more l' a e,
    length-append bytes more,
    get_or-append_lt a bytes more 0,
    get_or-append_lt (a + 1) bytes more 0,
  )
  | inr (inl (x, e)) ↦ absurd (cc (rw e at h))
  | inr (inr e) ↦ absurd (cc (rw e at h))
]

pub try_parse_packet-append_err :
    (bytes more : List ℕ) (x : Error)
    → try_parse_packet bytes ≡ err x
    → try_parse_packet (bytes ++ more) ≡ err x
unfolding try_parse_packet
try_parse_packet-append_err bytes more x h = elim (Result-cases (parse_uot_address bytes)) [
  | inl (none, e) ↦ absurd (cc (rw e at h))
  | inl (some (l, a), e) ↦ absurd (ground arith)
  | inr (inl (y, e)) ↦
      let q : err y ≡ err x = rw e at h in rw (parse_uot_address-append_err bytes more y e) cc
  | inr (inr e) ↦ absurd (parse_uot_address-ne-panic bytes e)
]

pub try_parse_packet-ne-panic : (bytes : List ℕ) → try_parse_packet bytes ≢ panic
unfolding try_parse_packet
try_parse_packet-ne-panic bytes h = elim (Result-cases (parse_uot_address bytes)) [
  | inl (none, e) ↦ cc (rw e at h)
  | inl (some (l', a), e) ↦ ground arith
  | inr (inl (x, e)) ↦ cc (rw e at h)
  | inr (inr e) ↦ absurd (parse_uot_address-ne-panic bytes e)
]

-- The bytes that have not been delivered: those in the buffer, then those that arrive.
abbrev pub undelivered : PacketAddrStream → List Arrival → List ℕ
undelivered st es = as_slice st.read_buf ++ arriving es

-- What a read may return where `bytes` are undelivered, `eof` says whether an earlier read has met the end,
-- and `ending` whether the end is to come. A packet is the one at the front of the bytes, and just its bytes
-- are taken off; no other answer takes a byte, and none is a panic; an empty packet may stand for the end.
abbrev pub DeliversFrom : Bool → Bool → List ℕ → ReadOut → Type 0
DeliversFrom eof ending bytes (pending, st', es') = undelivered st' es' ≡ bytes
DeliversFrom eof ending bytes (ready (err e), st', es') = undelivered st' es' ≡ bytes
DeliversFrom eof ending bytes (ready panic, st', es') = ⊥
DeliversFrom eof ending bytes (ready (ok (location, payload)), st', es') =
    ((st'.is_eof ≡ true)
      × (location ≡ unspecified)
      × (payload ≡ [])
      × (undelivered st' es' ≡ bytes)
      × ((eof ≡ true) ⊎ (ending ≡ true)))
    ⊎ ((start : ℕ) × (len : ℕ) × (try_parse_packet (bytes) ≡ ok (some (location, start, len)))
        × (payload ≡ slice (bytes) start (start + len))
        × (undelivered st' es' ≡ drop (start + len) (bytes)))

abbrev pub Delivers : PacketAddrStream → List Arrival → ReadOut → Type 0
Delivers st es out = DeliversFrom st.is_eof (has_end es) (undelivered st es) out

-- A turn that does not return reads at least a byte into the buffer, and loses none.
pub record Grows (st : PacketAddrStream) (es : List Arrival) (st' : PacketAddrStream)
    (es' : List Arrival) : Type 0 where
  pub same : undelivered st' es' ≡ undelivered st es
  pub ending : has_end es' ≡ has_end es
  pub starts : st'.read_buf.start ≡ (maybe_compact st.read_buf 4096).start
  pub valid : IsValid st'.read_buf
  pub memory : length st'.read_buf.bytes ≡ length st.read_buf.bytes
  pub more : length (as_slice st.read_buf) < length (as_slice st'.read_buf)

abbrev pub Sound : PacketAddrStream → List Arrival → Turn → Type 0
Sound st es (inl out) = DeliversFrom false (has_end es) (undelivered st es) out
Sound st es (inr (st', es')) = Grows st es st' es'

module _ (st : PacketAddrStream) (v : IsValid st.read_buf) where
  abbrev pub compacted : SlideBuffer
  compacted = maybe_compact st.read_buf 4096

  pub compacted-IsValid : IsValid compacted
  compacted-IsValid = maybe_compact-IsValid 4096 v

  pub as_slice-compacted : as_slice compacted ≡ as_slice st.read_buf
  as_slice-compacted = as_slice-maybe_compact 4096 v

  received_chunk :
      (chunk : List ℕ) (es es' : List Arrival)
      → length chunk ≤ remaining_capacity compacted
      → chunk ++ arriving es' ≡ arriving es
      → ahead false es ≡ ahead_of chunk es'
      → Sound st es (received (record st { read_buf = compacted }) (ready (ok chunk), es'))
  unfolding received
  received_chunk [] es es' h e f =
      inl (refl, refl, refl, ap₂ ◌++◌ as_slice-compacted e, inr (ap (λ (a : List ℕ × Bool). a.1) f))
  received_chunk (x ∷ xs) es es' h e f =
      let grown = as_slice-advance_write (x ∷ xs) compacted-IsValid h in
      record {
        same =
            ap (λ bs. bs ++ arriving es') grown
            ∙ (append_assoc (as_slice compacted) (x ∷ xs) (arriving es')
                ∙ ap₂ ◌++◌ as_slice-compacted e);
        ending = sym (ap (λ (a : List ℕ × Bool). a.1) f);
        starts = unfold advance_write write_slice in refl;
        valid = advance_write-IsValid (x ∷ xs) compacted-IsValid h;
        memory = length-advance_write (x ∷ xs) compacted-IsValid h ∙ length-maybe_compact 4096 v;
        more =
            rw (grown, as_slice-compacted)
              (omega (arith, length-append (as_slice st.read_buf) (x ∷ xs)));
      }

  fill-Sound : (es : List Arrival) → Sound st es (fill st es)
  unfolding fill
  fill-Sound es = elim (Bool-cases (remaining_capacity compacted == 0)) [
    | inl e ↦ rw e (ap (λ bs. bs ++ arriving es) as_slice-compacted)
    | inr e ↦ rw e (answered es (ground (arith, e)))
  ]
    where
      answered :
          (es : List Arrival)
          → 0 < remaining_capacity compacted
          → Sound st es (
              received
                (record st { read_buf = compacted })
                (poll_read (remaining_capacity compacted) es))
      answered [] h = unfold received in ap (λ bs. bs ++ []) as_slice-compacted
      answered (not_yet ∷ es) h = unfold received in ap (λ bs. bs ++ arriving es) as_slice-compacted
      answered (breaks x ∷ es) h =
          unfold received in ap (λ bs. bs ++ arriving es) as_slice-compacted
      answered (arrives bs ∷ es) h =
          let room = remaining_capacity compacted in
          received_chunk (take room bs) (arrives bs ∷ es) (keep room bs es)
            (omega (arith, length-take room bs)) (arriving-keep room bs es)
            (ahead-keep room bs es h)

  delivered :
      (room : ℕ) (es : List Arrival) (location : NetLocation) (start len : ℕ)
      → length st.read_buf.bytes ≤ room
      → try_parse_packet (as_slice st.read_buf) ≡ ok (some (location, start, len))
      → Sound st es (parsed room st es (ok (some (location, start, len))))
  unfolding parsed
  delivered room es location start len h e =
      let bytes = as_slice st.read_buf in
      let (inside, _) = try_parse_packet-le bytes location start len e in
      let live : length bytes ≤ room = omega (arith, length-as_slice v, v.inside) in
      let fits : ltb room len ≡ false = ground arith in
      rw fits (
        inr (
          start,
          len,
          try_parse_packet-append bytes (arriving es) location start len e,
          sym (slice-append_le bytes (arriving es) start (start + len) inside),
          (ap (λ bs. bs ++ arriving es)
                (as_slice-consume (start + len) v (omega (arith, length-as_slice v)))
              ∙ sym (drop-append_le (start + len) bytes (arriving es) inside)),
        ))

  pub read_turn-Sound :
      (room : ℕ) (es : List Arrival)
      → length st.read_buf.bytes ≤ room
      → Sound st es (read_turn room st es)
  unfolding read_turn
  read_turn-Sound room es h = elim (Result-cases (try_parse_packet (as_slice st.read_buf))) [
    | inl (none, e) ↦ rw e (unfold parsed in fill-Sound es)
    | inl (some (location, start, len), e) ↦ rw e (delivered room es location start len h e)
    | inr (inl (x, e)) ↦ rw e (unfold parsed in refl)
    | inr (inr e) ↦ absurd (try_parse_packet-ne-panic (as_slice st.read_buf) e)
  ]

abbrev Finishes : ℕ → ℕ → PacketAddrStream → List Arrival → Type 0
Finishes fuel room st es =
    (out : ReadOut) × (read_loop fuel room st es ≡ some out)
    × DeliversFrom false (has_end es) (undelivered st es) out

-- Enough fuel for a byte in each round, and the loop ends with a sound answer.
read_loop-Finishes :
    (fuel room : ℕ) (st : PacketAddrStream) (es : List Arrival)
    → IsValid st.read_buf
    → length st.read_buf.bytes ≤ room
    → length st.read_buf.bytes < fuel + length (as_slice st.read_buf)
    → Finishes fuel room st es
read_loop-Finishes zero room st es v h f = absurd (omega (arith, length-as_slice v, v.inside))
read_loop-Finishes (suc fuel) room st es v h f =
    turned (read_loop-Finishes fuel room) (read_turn room st es) refl
      (read_turn-Sound st v room es h)
  where
    turned :
        ((st' : PacketAddrStream) (es' : List Arrival)
          → IsValid st'.read_buf
          → length st'.read_buf.bytes ≤ room
          → length st'.read_buf.bytes < fuel + length (as_slice st'.read_buf)
          → Finishes fuel room st' es')
        → (t : Turn) → read_turn room st es ≡ t
        → Sound st es t
        → Finishes (suc fuel) room st es
    turned ih (inl out) e d = (out, unfold read_loop in rw (e, read_loop), d)
    turned ih (inr (st', es')) e g =
        let memory = g.memory in
        let more = g.more in
        let (out, r, d) = ih st' es' g.valid (omega arith) (omega arith) in
        let d' = subst (λ b. DeliversFrom false b (undelivered st' es') out) g.ending d in
        (
          out,
          unfold read_loop in rw (e, read_loop) r,
          subst (λ bs. DeliversFrom false (has_end es) bs out) g.same d',
        )

pub poll_read_targeted_message-Sound :
    (room : ℕ) (st : PacketAddrStream) (es : List Arrival)
    → IsValid st.read_buf
    → length st.read_buf.bytes ≤ room
    → (out : ReadOut) × (poll_read_targeted_message room st es ≡ some out) × Delivers st es out
unfolding poll_read_targeted_message
poll_read_targeted_message-Sound room st es v h = elim (Bool-cases st.is_eof) [
  | inl e ↦ ((ready (ok (unspecified, [])), st, es), rw e refl, inl (e, refl, refl, refl, inl e))
  | inr e ↦
      let (out, r, d) =
        read_loop-Finishes (length st.read_buf.bytes + 1) room st es v h (omega arith) in
      (out, simp e r, subst (λ o. DeliversFrom o (has_end es) (undelivered st es) out) (sym e) d)
]
