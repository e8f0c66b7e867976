-- ===== src/Anytls/Session/Padded.antt =====
-- src/anytls/session.rs, write_with_padding and write_frame: what padding adds to the bytes of a frame.
use rust_proxy.Prelude.{
  ℕ, ◌+◌, ◌%◌, ◌^◌, ◌<◌, ◌≡◌, refl, sym, ap, ◌∙◌, ◌≢◌, ◌⊎◌, inl, inr, true, false, List, [], ◌∷◌,
  ◌++◌, append-nil, append_assoc, arith, ltb, ◌==◌, length, take, drop, take-append-drop, All, ok,
  err, panic, if-cases,
}
use rust_proxy.Anytls.Types.{Frame, encode_into}
use rust_proxy.Anytls.Session.Wire.{
  Wire, Written, write_all, flush, and_then, check_mark, as_usize, zeros, waste_header, padded,
  Turn, goes_on, over, turn_written, write_size, turn, write_sizes, write_rest, write_with_padding,
  Sender, Padding, Sent, on_wire, write_out, write_frame,
}
use rust_proxy.Anytls.Session.Writes.{
  Adds, write_all-Adds, and_then-Adds, flushed-Adds, write_zeros-Adds, waste_frames,
  waste_frames-append, waste_header-zeros, SizeOk, padded_lem,
}

-- From one point of the loop to a later one: a part of the data is sent, then nothing but filling; and
-- filling only where no data is left.
record Part (w : Wire) (bytes : List ℕ) (w' : Wire) (left : List ℕ) : Type 0 where
  done : List ℕ
  fill : List ℕ
  split : done ++ left ≡ bytes
  sent : w'.sent ≡ w.sent ++ (done ++ waste_frames fill)
  last : (fill ≡ []) ⊎ (left ≡ [])

no_append : (xs ys : List ℕ) → xs ++ ys ≡ [] → (xs ≡ []) × (ys ≡ [])
no_append [] ys e = (refl, e)
no_append (x ∷ xs) ys e = absurd (omega (arith, ap (λ (t : List ℕ). length t) e))

Part-refl : (w : Wire) (bytes : List ℕ) → Part w bytes w bytes
unfolding waste_frames
Part-refl w bytes = record {
  done = [];
  fill = [];
  split = refl;
  sent = sym (append-nil _);
  last = inl refl;
}

module _ {u v w : Wire} {bytes more left : List ℕ} (a : Part u bytes v more)
    (b : Part v more w left) where
  sent_twice :
      w.sent ≡ u.sent ++ ((a.done ++ waste_frames a.fill) ++ (b.done ++ waste_frames b.fill))
  sent_twice =
      b.sent
      ∙ (ap (λ t. t ++ (b.done ++ waste_frames b.fill)) a.sent
          ∙ append_assoc u.sent (a.done ++ waste_frames a.fill) (b.done ++ waste_frames b.fill))

  Part-trans : Part u bytes w left
  Part-trans = elim a.last [
    | inl e ↦ record {
      done = a.done ++ b.done;
      fill = b.fill;
      split = append_assoc a.done b.done left ∙ (ap (λ t. a.done ++ t) b.split ∙ a.split);
      sent = sent_twice ∙ ap (λ t. u.sent ++ t) (unfilled e);
      last = b.last;
    }
    | inr e ↦
        let (d, l) = no_append b.done left (b.split ∙ e) in
        record {
          done = a.done;
          fill = a.fill ++ b.fill;
          split = ap (λ t. a.done ++ t) (l ∙ sym e) ∙ a.split;
          sent = sent_twice ∙ ap (λ t. u.sent ++ t) (filled d);
          last = inr l;
        }
  ]
    where
      unfilled :
          a.fill ≡ []
          → (a.done ++ waste_frames a.fill) ++ (b.done ++ waste_frames b.fill)
            ≡ (a.done ++ b.done) ++ waste_frames b.fill
      unfilled e = rw e (
          unfold waste_frames in
          rw append-nil (sym (append_assoc a.done b.done (waste_frames b.fill))))

      filled :
          b.done ≡ []
          → (a.done ++ waste_frames a.fill) ++ (b.done ++ waste_frames b.fill)
            ≡ a.done ++ waste_frames (a.fill ++ b.fill)
      filled d =
          rw (d, waste_frames-append a.fill b.fill)
            (append_assoc a.done (waste_frames a.fill) (waste_frames b.fill))

-- What a turn may give.
abbrev Turns : Wire → List ℕ → Turn → Type 0
Turns w bytes (goes_on left w') = Part w bytes w' left
Turns w bytes (over (r, w') left) = (r ≢ panic) × (r ≡ ok tt → Part w bytes w' left)

turn_written-Turns :
    (w : Wire) (bytes left : List ℕ) (sends : List ℕ) (out : Written)
    → Adds w sends out
    → ((w' : Wire) → w'.sent ≡ w.sent ++ sends → Part w bytes w' left)
    → Turns w bytes (turn_written left out)
unfolding turn_written
turn_written-Turns w bytes left sends (ok _, w') a f = f w' (a.1 refl)
turn_written-Turns w bytes left sends (err e, w') a f = (λ h. cc, λ h. cc)
turn_written-Turns w bytes left sends (panic, w') a f = absurd (a.0 refl)

last-Part :
    (w w' : Wire) (bytes fill : List ℕ)
    → w'.sent ≡ w.sent ++ (bytes ++ waste_frames fill)
    → Part w bytes w' []
last-Part w w' bytes fill e = record {
  done = bytes;
  fill = fill;
  split = append-nil _;
  sent = e;
  last = inr refl;
}

write_size-Turns :
    (bytes : List ℕ) (size : ℕ) (w : Wire) → size < 2 ^ 16 → Turns w bytes (write_size bytes size w)
unfolding write_size
write_size-Turns bytes size w h =
    if-cases (Turns w bytes) (ltb size (length bytes)) _ _
      (λ _.
        turn_written-Turns w bytes (drop size bytes) (take size bytes) _
          (write_all-Adds (take size bytes) w)
          (λ w' e. record {
            done = take size bytes;
            fill = [];
            split = take-append-drop size bytes;
            sent = unfold waste_frames in e ∙ ap (λ t. w.sent ++ t) (sym (append-nil _));
            last = inl refl;
          }))
      (λ _.
        if-cases (Turns w bytes) (ltb 0 (length bytes)) _ _
          (λ _.
            let (fill, p) = padded_lem bytes size h in
            turn_written-Turns w bytes [] (padded bytes size) _
              (write_all-Adds (padded bytes size) w)
              (λ w' e. last-Part w w' bytes fill (e ∙ ap (λ t. w.sent ++ t) p)))
          (λ q.
            let none_left : bytes ≡ [] = emptied bytes (ground arith) in
            turn_written-Turns w bytes [] (waste_header size ++ zeros size) _
              (and_then-Adds w _ _ _ _ (write_all-Adds (waste_header size) w)
                (λ w'. write_zeros-Adds size size w' (omega arith)))
              (λ w' e.
                last-Part w w' bytes (size ∷ [])
                  (e ∙ rw none_left (ap (λ t. w.sent ++ t) (waste_header-zeros size h))))))
  where
    emptied : (bs : List ℕ) → length bs ≡ 0 → bs ≡ []
    emptied [] e = refl
    emptied (x ∷ xs) e = absurd (omega arith)

turn-Turns :
    (bytes : List ℕ) (size : ℕ) (w : Wire) → SizeOk size → Turns w bytes (turn bytes size w)
unfolding turn as_usize
turn-Turns bytes size w (inl h) =
    let not_mark : (size == check_mark) ≡ false = ground arith in
    let positive : ltb size 2147483648 ≡ true = ground arith in
    rw (not_mark, positive) (write_size-Turns bytes size w h)
turn-Turns bytes size w (inr e) = rw e (
    if-cases (Turns w bytes) (length bytes == 0) _ _ (λ _. (λ h. cc, λ _. Part-refl w bytes))
      (λ _. Part-refl w bytes))

abbrev Ends : Wire → List ℕ → Written × List ℕ → Type 0
Ends w bytes ((r, w'), left) = (r ≢ panic) × (r ≡ ok tt → Part w bytes w' left)

write_sizes-Ends :
    (sizes bytes : List ℕ) (w : Wire) → All SizeOk sizes → Ends w bytes (write_sizes sizes bytes w)
write_sizes-Ends [] bytes w h = unfold write_sizes in (λ h. cc, λ _. Part-refl w bytes)
write_sizes-Ends (size ∷ sizes) bytes w h =
    turned (λ left w'. write_sizes-Ends sizes left w' h.1) (turn bytes size w) refl
      (turn-Turns bytes size w h.0)
  where
    after :
        (w' : Wire) (left : List ℕ) (out : Written × List ℕ)
        → Part w bytes w' left
        → Ends w' left out
        → Ends w bytes out
    after w' left ((r, w''), left') p e = (e.0, λ q. Part-trans p (e.1 q))

    turned :
        ((left : List ℕ) (w' : Wire) → Ends w' left (write_sizes sizes left w'))
        → (t : Turn) → turn bytes size w ≡ t
        → Turns w bytes t
        → Ends w bytes (write_sizes (size ∷ sizes) bytes w)
    turned ih (goes_on left w') e p =
        unfold write_sizes in
        rw (e, write_sizes) (after w' left (write_sizes sizes left w') p (ih left w'))
    turned ih (over (r, w') left) e p = unfold write_sizes in rw (e, write_sizes) p

-- The bytes in order, and behind them nothing but filling.
abbrev Pads : Wire → List ℕ → Written → Type 0
Pads w bytes (r, w') =
    (r ≢ panic) × (r ≡ ok tt → (fill : List ℕ) × (w'.sent ≡ w.sent ++ (bytes ++ waste_frames fill)))

unpadded : (w : Wire) (bytes : List ℕ) (out : Written) → Adds w bytes out → Pads w bytes out
unfolding waste_frames
unpadded w bytes out a = (a.0, λ h. ([], a.1 h ∙ ap (λ t. w.sent ++ t) (sym (append-nil bytes))))

write_rest-Pads :
    (w : Wire) (bytes : List ℕ) (out : Written × List ℕ)
    → Ends w bytes out
    → Pads w bytes (write_rest out)
unfolding write_rest
write_rest-Pads w bytes ((err e, w'), left) k = (λ h. cc, λ h. cc)
write_rest-Pads w bytes ((panic, w'), left) k = absurd (k.0 refl)
write_rest-Pads w bytes ((ok _, w'), left) k =
    if-cases (λ o. Pads w bytes (and_then o flush)) (length left == 0) _ _
      (λ q.
        finish [] (ok tt, w') (λ h. cc, λ _. sym (append-nil _))
          (λ _. sym (emptied left (ground arith))))
      (λ q. finish left (write_all left w') (write_all-Adds left w') (λ e. refl))
  where
    p : Part w bytes w' left
    p = k.1 refl

    emptied : (bs : List ℕ) → length bs ≡ 0 → bs ≡ []
    emptied [] e = refl
    emptied (x ∷ xs) e = absurd (omega arith)

    whole :
        (p : Part w bytes w' left) → (w'.sent ++ left) ≡ w.sent ++ (bytes ++ waste_frames p.fill)
    whole p = elim p.last [
      | inl e ↦
          ap (λ t. t ++ left) (p.sent ∙ rw e (unfold waste_frames in rw append-nil refl))
          ∙ (append_assoc w.sent p.done left
              ∙ ap (λ t. w.sent ++ t)
                  (p.split ∙ rw e (unfold waste_frames in sym (append-nil bytes))))
      | inr e ↦ rw e (
          append-nil _
          ∙ (p.sent
              ∙ ap (λ t. w.sent ++ (t ++ waste_frames p.fill))
                  (sym (append-nil p.done) ∙ (ap (λ t. p.done ++ t) (sym e) ∙ p.split))))
    ]

    finish :
        (more : List ℕ) (out : Written)
        → Adds w' more out
        → (out.0 ≡ out.0 → more ≡ left)
        → Pads w bytes (and_then out flush)
    finish more out a m =
        let f = flushed-Adds w' more out a in
        (f.0, λ h. (p.fill, f.1 h ∙ (ap (λ t. w'.sent ++ t) (m refl) ∙ whole p)))

-- Where padding succeeds, the connection has got the data in order and behind it nothing but whole frames
-- of padding; and it does not panic. The sizes are those that a frame's header can name, and the mark.
write_with_padding-Pads :
    (sizes bytes : List ℕ) (w : Wire)
    → All SizeOk sizes
    → Pads w bytes (write_with_padding sizes bytes w)
unfolding write_with_padding
write_with_padding-Pads [] bytes w h =
    unpadded w bytes (and_then (write_all bytes w) flush)
      (flushed-Adds w bytes (write_all bytes w) (write_all-Adds bytes w))
write_with_padding-Pads (size ∷ sizes) bytes w h =
    write_rest-Pads w bytes (write_sizes (size ∷ sizes) bytes w)
      (write_sizes-Ends (size ∷ sizes) bytes w h)

-- What is sent and what waits to be sent.
abbrev pub pending_bytes : Sender → List ℕ
pending_bytes s = s.wire.sent ++ s.buffer

abbrev pub FrameOut : Frame → Sender → Sent → Type 0
FrameOut f s (r, s') =
    (r ≢ panic)
    × (r ≡ ok tt
        → (fill : List ℕ) × (pending_bytes s'
            ≡ pending_bytes s ++ (encode_into f [] ++ waste_frames fill))
          × (s.buffering ≡ false → s'.buffer ≡ []))

on_wire-FrameOut :
    (f : Frame) (s s' : Sender) (out : Written)
    → s'.buffer ≡ []
    → Pads s.wire (s.buffer ++ encode_into f []) out
    → FrameOut f s (on_wire s' out)
on_wire-FrameOut f s s' (r, w) e p = (
  p.0,
  λ h.
      let (fill, q) = p.1 h in
      (
        fill,
        rw e (
            append-nil w.sent
            ∙ (q
                ∙ (ap (λ t. s.wire.sent ++ t)
                      (append_assoc s.buffer (encode_into f []) (waste_frames fill))
                    ∙ sym (
                        append_assoc s.wire.sent s.buffer
                          (encode_into f [] ++ waste_frames fill))))),
        λ _. e,
      ),
)

-- Where a frame is written with success, what is sent and what waits grows by the encoded frame and,
-- behind it, nothing but whole frames of padding, and nothing waits unless the session is buffering. Writing does not
-- panic. The sizes that padding draws are those that a frame's header can name, and the mark.
pub write_frame-FrameOut :
    (p : Padding) (f : Frame) (s : Sender)
    → ((pkt : ℕ) → All SizeOk (p.sizes pkt))
    → FrameOut f s (write_frame p f s)
unfolding write_frame write_out
write_frame-FrameOut p f s h =
    let bytes = s.buffer ++ encode_into f [] in
    let pkt = (s.pkt_counter + 1) % 2 ^ 32 in
    let plain =
      unpadded s.wire bytes (and_then (write_all bytes s.wire) flush)
        (flushed-Adds s.wire bytes (write_all bytes s.wire) (write_all-Adds bytes s.wire)) in
    if-cases (FrameOut f s) s.buffering _ _
      (λ b. (
        λ q. cc,
        λ _. (
          [],
          unfold waste_frames in
              rw append-nil (sym (append_assoc s.wire.sent s.buffer (encode_into f []))),
          λ q. absurd cc,
        ),
      ))
      (λ b.
        if-cases (FrameOut f s) s.send_padding _ _
          (λ _.
            if-cases (FrameOut f s) (ltb pkt p.stop) _ _
              (λ _.
                on_wire-FrameOut f s (record s { buffer = []; pkt_counter = pkt })
                  (write_with_padding (p.sizes pkt) bytes s.wire) refl
                  (write_with_padding-Pads (p.sizes pkt) bytes s.wire (h pkt)))
              (λ _.
                on_wire-FrameOut f s
                  (record s { buffer = []; pkt_counter = pkt; send_padding = false })
                  (and_then (write_all bytes s.wire) flush) refl plain))
          (λ _.
            on_wire-FrameOut f s (record s { buffer = [] })
              (and_then (write_all bytes s.wire) flush) refl plain))
