-- ===== src/Message/PacketAddr/Write.antt =====
-- src/message_stream.rs, PacketAddrStream: the write and flush side.
use rust_proxy.Prelude.{
  ℕ, ◌+◌, ◌/◌, ◌%◌, ◌^◌, ◌<◌, min, ◌≡◌, refl, sym, ap, ◌∙◌, ◌≢◌, inl, inr, false, some, List, [],
  ◌∷◌, ◌++◌, append-nil, append_assoc, arith, ltb, Bool-cases, length, get_or, take, drop,
  length-append, take-append-drop, be16, from_be16, from_be16-be16, slice, drop-drop, drop_all,
  Answer, busy, fails, takes, Sink, poll_done_lem, Error, Result, ok, err, panic, Poll, pending,
  ready, get_or-append_length, slice-append_mid,
}
use rust_proxy.Address.{NetLocation, SocketAddr, to_location, IsSocketAddr}
use rust_proxy.Message.UotAddress.{
  parse_uot_address, write_uot_address, parse_uot_address-write_uot_address,
}
use rust_proxy.Message.PacketAddr.{
  PacketAddrStream, WriteOut, buffer_size, clear_write, addr_len, Drained, write_behind,
  flush_behind, drain, try_parse_packet, poll_write_sourced_message, poll_flush_message,
}

-- The bytes of a packet: address, length, payload.
unfoldable pub frame : SocketAddr → List ℕ → List ℕ
frame source payload = write_uot_address source ++ (be16 (length payload) ++ payload)

-- A packet behind an address that is parsed.
module _ (addr payload rest : List ℕ) (l : NetLocation) (x y : ℕ) where
  abbrev whole : List ℕ
  whole = addr ++ (x ∷ y ∷ (payload ++ rest))

  try_parse_packet-whole :
      from_be16 x y ≡ length payload
      → parse_uot_address whole ≡ ok (some (l, length addr))
      → try_parse_packet whole ≡ ok (some (l, length addr + 2, length payload))
  unfolding try_parse_packet
  try_parse_packet-whole n e =
      let z : length addr + 0 ≡ length addr = omega arith in
      let first : get_or whole (length addr) 0 ≡ x =
        rw z at (get_or-append_length addr (x ∷ y ∷ (payload ++ rest)) 0 0) in
      let second : get_or whole (length addr + 1) 0 ≡ y =
        get_or-append_length addr (x ∷ y ∷ (payload ++ rest)) 1 0 in
      let long : length whole ≡ length addr + (2 + (length payload + length rest)) =
        omega (arith, length-append addr (x ∷ y ∷ (payload ++ rest)), length-append payload rest) in
      rw (e, first, second, long, n) (ground arith)

  slice-whole : slice whole (length addr + 2) (length addr + 2 + length payload) ≡ payload
  slice-whole =
      ap (λ bs. slice bs (length addr + 2) (length addr + 2 + length payload))
        (sym (append_assoc addr (x ∷ y ∷ []) (payload ++ rest)))
      ∙ slice-append_mid (addr ++ (x ∷ y ∷ [])) payload rest (length addr + 2)
          (length addr + 2 + length payload) (sym (length-append addr (x ∷ y ∷ []))) refl

-- A frame is parsed as the packet that it was made of, whatever follows it.
pub try_parse_packet-frame :
    (source : SocketAddr) (payload rest : List ℕ)
    → IsSocketAddr source
    → length payload < 65536
    → let n = length (write_uot_address source) + 2 in
      (try_parse_packet (frame source payload ++ rest)
        ≡ ok (some (to_location source, n, length payload)))
      × (slice (frame source payload ++ rest) n (n + length payload) ≡ payload)
unfolding frame
try_parse_packet-frame source payload rest a h =
    let addr = write_uot_address source in
    let x = length payload / 256 % 256 in
    let y = length payload % 256 in
    rw append_assoc (
      try_parse_packet-whole addr payload rest (to_location source) x y (from_be16-be16 _ h)
          (parse_uot_address-write_uot_address source (x ∷ y ∷ (payload ++ rest)) a),
      slice-whole addr payload rest (to_location source) x y,
    )

-- The loop of a flush passes on the bytes in order: what was sent and what is unsent make up the same
-- bytes before and after, and if it ends well nothing is unsent.
record Drains (out buf : List ℕ) (i : ℕ) (d : Drained) : Type 0 where
  same : d.2.sent ++ drop d.1 buf ≡ out ++ drop i buf
  ends : d.0 ≡ ready (ok tt) → drop d.1 buf ≡ []
  calm : d.0 ≢ ready panic

stops-Drains :
    (out buf : List ℕ) (i : ℕ) (r : Poll (Result (Unit {0}))) (rest : List Answer)
    → r ≢ ready (ok tt)
    → r ≢ ready panic
    → Drains out buf i (r, i, record { answers = rest; sent = out })
stops-Drains out buf i r rest h p = record { same = refl; ends = λ e. absurd (h e); calm = p }

done-Drains :
    (out buf : List ℕ) (i : ℕ) (rest : List Answer)
    → ltb i (length buf) ≡ false
    → Drains out buf i (ready (ok tt), i, record { answers = rest; sent = out })
done-Drains out buf i rest e = record {
  same = refl;
  ends = λ _. drop_all i buf (ground arith);
  calm = λ h. cc;
}

drain-Drains :
    (answers : List Answer) (out buf : List ℕ) (i : ℕ) → Drains out buf i (drain answers out buf i)
unfolding drain
drain-Drains [] out buf i = elim (Bool-cases (ltb i (length buf))) [
  | inl e ↦ rw e (stops-Drains out buf i pending [] (λ h. cc) (λ h. cc))
  | inr e ↦ rw e (done-Drains out buf i [] e)
]
drain-Drains (busy ∷ rest) out buf i = elim (Bool-cases (ltb i (length buf))) [
  | inl e ↦ rw e (stops-Drains out buf i pending rest (λ h. cc) (λ h. cc))
  | inr e ↦ rw e (done-Drains out buf i (busy ∷ rest) e)
]
drain-Drains (fails x ∷ rest) out buf i = elim (Bool-cases (ltb i (length buf))) [
  | inl e ↦ rw e (stops-Drains out buf i (ready (err (Error.device x))) rest (λ h. cc) (λ h. cc))
  | inr e ↦ rw e (done-Drains out buf i (fails x ∷ rest) e)
]
drain-Drains (takes n ∷ rest) out buf i = elim (Bool-cases (ltb i (length buf))) [
  | inl e ↦
      let m = min n (length (drop i buf)) in
      let d = drain-Drains rest (out ++ take m (drop i buf)) buf (i + m) in
      let joined : take m (drop i buf) ++ drop (i + m) buf ≡ drop i buf =
        rw (← drop-drop m i buf) (take-append-drop m (drop i buf)) in
      rw e (record {
        same =
            d.same
            ∙ (append_assoc out (take m (drop i buf)) (drop (i + m) buf)
                ∙ ap (λ bs. out ++ bs) joined);
        ends = d.ends;
        calm = d.calm;
      })
  | inr e ↦ rw e (done-Drains out buf i (takes n ∷ rest) e)
]

-- The bytes that a write has promised and the transport has not got.
abbrev pub unsent : PacketAddrStream → List ℕ
unsent st = drop st.write_buf_sent st.write_buf

-- What a write of `buf` may leave. If it succeeds, the earlier bytes are sent and its frame is unsent;
-- else the earlier bytes are sent or unsent, in order, and nothing is added.
abbrev pub Stages : List ℕ → SocketAddr → List ℕ → WriteOut → Type 0
Stages buf source bytes (ready (ok _), st, k) =
    (k.sent ≡ bytes) × (unsent st ≡ frame source buf) × (length buf < 65536)
Stages buf source bytes (ready (err e), st, k) = k.sent ++ unsent st ≡ bytes
Stages buf source bytes (ready panic, st, k) = ⊥
Stages buf source bytes (pending, st, k) = k.sent ++ unsent st ≡ bytes

-- What a flush may leave: if it succeeds all is sent, else what was sent and what is unsent make up the
-- same bytes.
abbrev pub Flushes : List ℕ → WriteOut → Type 0
Flushes bytes (ready (ok _), st, k) = (k.sent ≡ bytes) × (unsent st ≡ [])
Flushes bytes (ready (err e), st, k) = k.sent ++ unsent st ≡ bytes
Flushes bytes (ready panic, st, k) = ⊥
Flushes bytes (pending, st, k) = k.sent ++ unsent st ≡ bytes

write_behind-Stages :
    (buf : List ℕ) (source : SocketAddr) (st : PacketAddrStream) (bytes : List ℕ) (d : Drained)
    → (d.2.sent ++ drop d.1 st.write_buf ≡ bytes)
    → (d.0 ≡ ready (ok tt) → drop d.1 st.write_buf ≡ [])
    → d.0 ≢ ready panic
    → Stages buf source bytes (write_behind buf source st d)
unfolding write_behind
write_behind-Stages buf source st bytes (pending, i, k) h e c = h
write_behind-Stages buf source st bytes (ready (err x), i, k) h e c = h
write_behind-Stages buf source st bytes (ready panic, i, k) h e c = c refl
write_behind-Stages buf source st bytes (ready (ok _), i, k) h e c =
    let sent : k.sent ++ [] ≡ bytes = rw (e refl) at h in
    elim (Bool-cases (ltb buffer_size (addr_len source + 2 + length buf))) [
      | inl big ↦ rw big sent
      | inr fits ↦
          let small : length buf < 65536 = ground arith in
          let low : length buf % 2 ^ 16 ≡ length buf = omega arith in
          rw fits (sym (append-nil k.sent) ∙ sent, unfold frame in rw low, small)
    ]

-- A write of a datagram: the bytes of the stream stay in order, and a frame is either added whole,
-- behind all earlier ones, or not at all. It never panics, and what it adds fits the length field.
pub poll_write_sourced_message-Stages :
    (buf : List ℕ) (source : SocketAddr) (st : PacketAddrStream) (k : Sink)
    → Stages buf source (k.sent ++ unsent st) (poll_write_sourced_message buf source st k)
unfolding poll_write_sourced_message
poll_write_sourced_message-Stages buf source st k =
    let d = drain-Drains k.answers k.sent st.write_buf st.write_buf_sent in
    write_behind-Stages buf source st (k.sent ++ unsent st) _ d.same d.ends d.calm

flush_done :
    (st : PacketAddrStream) (bytes : List ℕ) (r : Poll (Result (Unit {0}))) (k : Sink)
    → k.sent ≡ bytes
    → r ≢ ready panic
    → Flushes bytes (r, clear_write st, k)
flush_done st bytes pending k h c = rw append-nil h
flush_done st bytes (ready (err x)) k h c = rw append-nil h
flush_done st bytes (ready panic) k h c = c refl
flush_done st bytes (ready (ok _)) k h c = (h, refl)

flush_behind-Flushes :
    (st : PacketAddrStream) (bytes : List ℕ) (d : Drained)
    → (d.2.sent ++ drop d.1 st.write_buf ≡ bytes)
    → (d.0 ≡ ready (ok tt) → drop d.1 st.write_buf ≡ [])
    → d.0 ≢ ready panic
    → Flushes bytes (flush_behind st d)
unfolding flush_behind
flush_behind-Flushes st bytes (pending, i, k) h e c = h
flush_behind-Flushes st bytes (ready (err x), i, k) h e c = h
flush_behind-Flushes st bytes (ready panic, i, k) h e c = c refl
flush_behind-Flushes st bytes (ready (ok _), i, k) h e c =
    let sent : k.sent ++ [] ≡ bytes = rw (e refl) at h in
    let (same, calm) = poll_done_lem k in
    flush_done st bytes _ _ (same ∙ (sym (append-nil k.sent) ∙ sent)) calm

-- A flush sends the unsent bytes in order; when it succeeds none is left.
pub poll_flush_message-Flushes :
    (st : PacketAddrStream) (k : Sink) → Flushes (k.sent ++ unsent st) (poll_flush_message st k)
unfolding poll_flush_message
poll_flush_message-Flushes st k =
    let d = drain-Drains k.answers k.sent st.write_buf st.write_buf_sent in
    flush_behind-Flushes st (k.sent ++ unsent st) _ d.same d.ends d.calm
