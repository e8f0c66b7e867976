-- ===== src/Copy/Ends.antt =====
-- src/copy_bidirectional.rs, CopyBuffer::poll_copy: the loop returns, and what it has then done.
use rust_proxy.Prelude.{
  ℕ, zero, suc, ◌+◌, ◌<◌, ◌≡◌, refl, sym, ap, subst, append-nil, ◌∙◌, ◌≢◌, ◌⊎◌, inl, inr, Bool,
  true, false, ◌||◌, Option, some, List, [], ◌∷◌, ◌++◌, arith, length, length-append, arriving,
  Result, ok, err, panic, Poll, pending, ready,
}
use rust_proxy.Copy.{
  World, Phase, Done, read_turn, write_turn, turns, ping, after_write, after_ping, after_read,
  round, rounds, poll_copy,
}
use rust_proxy.Copy.Ring.{IsValid, contents, length-contents}
use rust_proxy.Copy.Fifo.{
  stream, promise, Keeps, Keeps-trans, AllRead, to_read, AllWritten, to_write, read_turn-Sound,
  write_turn-Sound, phase-Ends,
}
use rust_proxy.Copy.Rounds.{Rounds, Progress, after_write-Rounds, Pinged, ping-Pinged}

length-stream :
    (w : World)
    → IsValid w.ring
    → length (stream w) ≡ length w.out.sent + (w.ring.cache_length + length (arriving w.incoming))
length-stream w v = omega (
  arith,
  length-append w.out.sent (contents w.ring ++ arriving w.incoming),
  length-append (contents w.ring) (arriving w.incoming),
  length-contents w.ring v,
)

-- The write phase of a round without a pending side empties a ring that the read phase has filled.
written-Progress :
    (w w1 w2 w3 : World) (rp pp b : Bool)
    → Keeps w w1
    → (ok rp ≡ ok false → AllRead w1)
    → Pinged w1 (ok pp, w2)
    → Keeps w2 w3
    → (ok b ≡ ok false → AllWritten w3)
    → Progress w w3 ((rp || pp) || b)
written-Progress w w1 w2 w3 true pp b k1 full p k3 gone = record {
  keeps = Keeps-trans k1 (Keeps-trans p.keeps k3);
  empty = λ h. cc;
  sent = λ h. cc;
}
written-Progress w w1 w2 w3 false true b k1 full p k3 gone = record {
  keeps = Keeps-trans k1 (Keeps-trans p.keeps k3);
  empty = λ h. cc;
  sent = λ h. cc;
}
written-Progress w w1 w2 w3 false false true k1 full p k3 gone = record {
  keeps = Keeps-trans k1 (Keeps-trans p.keeps k3);
  empty = λ h. cc;
  sent = λ h. cc;
}
written-Progress w w1 w2 w3 false false false k1 full p k3 gone = record {
  keeps = Keeps-trans k1 (Keeps-trans p.keeps k3);
  empty = λ h. gone refl;
  sent = λ _ d. grown d (full refl);
}
  where
    grown : w3.ring.read_done ≡ false → AllRead w1 → length w.out.sent < length w3.out.sent
    grown d (inl e) = let f = (Keeps-trans p.keeps k3).mono e in cc
    grown d (inr full) = omega (
      arith,
      length-stream w2 p.keeps.valid,
      length-stream w3 k3.valid,
      ap (λ (t : List ℕ). length t) k3.same,
      gone refl,
      k3.fewer,
      k1.grows,
      p.keeps.grows,
      p.cached,
      full,
      k1.valid.start_in,
    )

abbrev EndsRound : World → Option (Done ⊎ World) → Type 0
EndsRound w o = (t : Done ⊎ World) × (o ≡ some t) × Rounds w t

after_ping-Ends :
    (w w1 : World) (rp : Bool) (p : Phase)
    → Keeps w w1
    → (ok rp ≡ ok false → AllRead w1)
    → Pinged w1 p
    → EndsRound w (after_ping rp p)
unfolding after_ping
after_ping-Ends w w1 rp (err e, w2) k f p =
    (inl (ready (err e), w2), refl, (Keeps-trans k p.keeps, λ h. cc, λ h. cc))
after_ping-Ends w w1 rp (panic, w2) k f p = absurd (p.calm refl)
after_ping-Ends w w1 rp (ok pp, w2) k f p =
    let v = p.keeps.valid in
    let (r, w3, e, k3, calm, gone) =
      phase-Ends AllWritten to_write write_turn write_turn-Sound (turns w2) w2 v
        (omega (arith, v.cache_in)) in
    (
      after_write (rp || pp) (r, w3),
      rw e refl,
      after_write-Rounds w w3 (rp || pp) r (Keeps-trans k (Keeps-trans p.keeps k3)) calm
          (λ b q. written-Progress w w1 w2 w3 rp pp b k f p k3 (λ h. gone (q ∙ h))),
    )

after_read-Ends :
    (pings : Bool) (w w1 : World) (r : Result Bool)
    → Keeps w w1
    → r ≢ panic
    → (r ≡ ok false → AllRead w1)
    → EndsRound w (after_read pings (r, w1))
unfolding after_read
after_read-Ends pings w w1 (err e) k c f = (inl (ready (err e), w1), refl, (k, λ h. cc, λ h. cc))
after_read-Ends pings w w1 panic k c f = absurd (c refl)
after_read-Ends pings w w1 (ok rp) k c f =
    after_ping-Ends w w1 rp (ping pings w1) k f (ping-Pinged w1 k.valid pings)

to_read_le : (w : World) → to_read w < turns w
to_read_le w = ground arith

round-Ends : (pings : Bool) (w : World) → IsValid w.ring → EndsRound w (round pings w)
unfolding round
round-Ends pings w v =
    let (r, w1, e, k, calm, full) =
      phase-Ends AllRead to_read read_turn read_turn-Sound (turns w) w v (to_read_le w) in
    rw (e, round) (after_read-Ends pings w w1 r k calm full)

abbrev waiting : World → ℕ
waiting w = w.ring.cache_length + length (arriving w.incoming)

abbrev Finished : World → Option Done → Type 0
Finished w o =
    (r : Poll (Result (Unit {0}))) × (w' : World) × (o ≡ some (r, w'))
    × Keeps w w'
    × (r ≢ ready panic)
    × (r ≡ ready (ok tt) → (w'.ring.read_done ≡ true) × (w'.ring.cache_length ≡ 0))

rounds-Finished :
    (fuel : ℕ) (pings : Bool) (w : World)
    → IsValid w.ring
    → waiting w < fuel
    → Finished w (rounds fuel pings w)
unfolding rounds
rounds-Finished zero pings w v h = absurd (omega arith)
rounds-Finished (suc fuel) pings w v h =
    let (t, e, s) = round-Ends pings w v in went (rounds-Finished fuel pings) t e s
  where
    went :
        ((w' : World) → IsValid w'.ring → waiting w' < fuel → Finished w' (rounds fuel pings w'))
        → (t : Done ⊎ World) → round pings w ≡ some t
        → Rounds w t
        → Finished w (rounds (suc fuel) pings w)
    went ih (inl (r, w')) e (k, c, f) = (r, w', rw (e, rounds) refl, k, c, f)
    went ih (inr w') e (k, s) =
        let less : waiting w' < fuel = omega (
          arith,
          length-stream w v,
          length-stream w' k.valid,
          ap (λ (t : List ℕ). length t) k.same,
          s,
        ) in
        let (r, w'', q, k', c, f) = ih w' k.valid less in
        (r, w'', rw (e, rounds) q, Keeps-trans k k', c, f)

-- All is sent: the end was among the arrivals, what was sent is what was due before it, and none of the
-- bytes behind it is lost.
abbrev pub Emptied : List ℕ → List ℕ × Bool → World → Type 0
Emptied bytes due w =
    (due.1 ≡ true) × (w.out.sent ≡ due.0) × (w.out.sent ++ arriving w.incoming ≡ bytes)

emptied :
    (w : World)
    → IsValid w.ring
    → w.ring.read_done ≡ true
    → w.ring.cache_length ≡ 0
    → Emptied (stream w) (promise w) w
emptied w v d h =
    rw (d, no_bytes (contents w.ring) (length-contents w.ring v ∙ h))
      (refl, sym (append-nil w.out.sent), refl)
  where
    no_bytes : (bs : List ℕ) → length bs ≡ 0 → bs ≡ []
    no_bytes [] h = refl
    no_bytes (x ∷ xs) h = absurd (omega arith)

-- From a valid ring `poll_copy` returns, whatever the reader and the writer answer, and does not panic: no
-- slice of the ring's memory is out of its bounds. What it has sent, what waits in the ring and what is still
-- to arrive are together the same bytes in the same order as before; and so are they up to the end of the
-- reader's stream. Where it returns success, that end was among the answers, all the bytes before it are sent,
-- and those behind it still arrive.
pub poll_copy-Fifo :
    (budget pings : Bool) (w : World)
    → IsValid w.ring
    → (r : Poll (Result (Unit {0}))) × (w' : World) × (poll_copy budget pings w ≡ some (r, w'))
      × (stream w' ≡ stream w)
      × (promise w' ≡ promise w)
      × IsValid w'.ring
      × (r ≢ ready panic)
      × (r ≡ ready (ok tt) → Emptied (stream w) (promise w) w')
unfolding poll_copy
poll_copy-Fifo false pings w v = (pending, w, refl, refl, refl, v, λ h. cc, λ h. cc)
poll_copy-Fifo true pings w v =
    let (r, w', e, k, c, f) =
      rounds-Finished (w.ring.cache_length + length (arriving w.incoming) + 1) pings w v
        (omega arith) in
    (
      r,
      w',
      e,
      k.same,
      k.promised,
      k.valid,
      c,
      λ h.
          let (d, z) = f h in
          subst (λ due. Emptied (stream w) due w') k.promised
            (subst (λ bytes. Emptied bytes (promise w') w') k.same (emptied w' k.valid d z)),
    )
