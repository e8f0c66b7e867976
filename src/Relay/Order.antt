-- ===== src/Relay/Order.antt =====
-- src/udp_relay.rs, CopyBuffer::poll_copy: the messages pass whole and in order, and the loop returns.
use rust_proxy.Prelude.{
  ℕ, zero, suc, ◌+◌, ◌≤◌, ◌<◌, ◌≡◌, refl, sym, ap₂, subst, ◌++◌, append-nil, ◌∙◌, ◌≢◌, inl, inr,
  Bool, true, false, not, ◌&&◌, ◌||◌, Option, some, List, [], ◌∷◌, arith, ◌==◌, Arrival, Answer,
  busy, fails, takes, Result, ok, err, panic, Poll, pending, ready, if-cases,
}
use rust_proxy.Relay.{
  CopyBuffer, World, Moved, done_by, reading, writing, pinging, Verdict, returns, continues,
  flush_answer, decide, round, Done, verdict, rounds, answers_left, poll_copy,
}
use rust_proxy.Relay.Steps.{
  queue, promise, arriving_messages, Keeps, IsValid, Ensures, kept, Keeps-trans, Keeps-IsValid,
  bound-Ensures, Read, Written, world, still, reading-Ensures, writing-Ensures, Pinged,
  pinging-Ensures,
}

-- What a round gives: it returns, with success only where all is passed on; or it goes on, and has taken
-- an answer.
abbrev Decides : World → Verdict → World → Type 0
Decides w (returns r) w' =
    (r ≢ ready panic)
    × (r ≡ ready (ok tt) → (w'.state.read_done ≡ true) × (w'.state.cache_length ≡ 0))
Decides w continues w' = answers_left w' < answers_left w

module _ (room : ℕ) (c : CopyBuffer) (es : List Arrival) where
  done_by-Flushed :
      (answers : List Answer) (sent : List (List ℕ))
      → (let w = world c es (record { answers = answers; sent = sent }) in
          IsValid room w → Ensures room w (Decides w) (flush_answer w (done_by answers sent)))
  unfolding flush_answer done_by
  done_by-Flushed [] sent v = (kept room _ v, ((λ q. cc), (λ q. cc)))
  done_by-Flushed (busy ∷ rest) sent v =
      (still room _ _ v refl refl refl refl refl (omega arith), ((λ q. cc), (λ q. cc)))
  done_by-Flushed (fails e ∷ rest) sent v = still room _ _ v refl refl refl refl refl (omega arith)
  done_by-Flushed (takes n ∷ rest) sent v =
      (still room _ _ v refl refl refl refl refl (omega arith), omega arith)

-- What is left when a round does not go on and has nothing to flush.
record Quiet (did_read did_write read_pending write_pending : Bool) (w : World) : Type 0 where
  emptied : write_pending ≡ false → w.state.cache_length ≡ 0
  ended :
      read_pending ≡ false
      → write_pending ≡ false
      → w.state.need_flush ≡ false
      → (did_read ≡ true → did_write ≡ true) × (did_read ≡ false → w.state.read_done ≡ true)

decide-Decides :
    (room : ℕ) (w0 w : World) (did_read did_write read_pending write_pending : Bool)
    → IsValid room w
    → answers_left w ≤ answers_left w0
    → (did_read ≡ true → answers_left w < answers_left w0)
    → Quiet did_read did_write read_pending write_pending w
    → Ensures room w (Decides w0) (decide did_read did_write read_pending write_pending w)
unfolding decide
decide-Decides room w0 w did_read did_write read_pending write_pending v le less quiet =
    let Good : Result Verdict × World → Type 0 = Ensures room w (Decides w0) in
    if-cases Good (did_read && (did_write && (not read_pending && not write_pending))) _ _
      (λ q. (kept room w v, less (ground arith)))
      (λ q.
        if-cases Good w.state.need_flush _ _
          (λ _.
            weaker (flush_answer w (done_by w.out.answers w.out.sent))
              (done_by-Flushed room w.state w.incoming w.out.answers w.out.sent v))
          (λ f.
            if-cases Good (w.state.read_done && (w.state.cache_length == 0)) _ _
              (λ d. (kept room w v, ((λ h. cc), (λ _. ground arith))))
              (λ d.
                if-cases Good (read_pending || write_pending) _ _
                  (λ p. (kept room w v, ((λ h. cc), (λ h. cc))))
                  (λ p.
                    absurd (stuck did_read did_write read_pending write_pending quiet q f d p)))))
  where
    weaker :
        (out : Result Verdict × World)
        → Ensures room w (Decides w) out
        → Ensures room w (Decides w0) out
    weaker (ok (returns r), w') h = h
    weaker (ok continues, w') h = (h.0, omega (arith, h.1))
    weaker (err e, w') h = h
    weaker (panic, w') h = h

    stuck :
        (did_read did_write read_pending write_pending : Bool)
        → Quiet did_read did_write read_pending write_pending w
        → (did_read && (did_write && (not read_pending && not write_pending))) ≡ false
        → w.state.need_flush ≡ false
        → (w.state.read_done && (w.state.cache_length == 0)) ≡ false
        → (read_pending || write_pending) ≡ false
        → ⊥
    stuck dr dw true wp quiet q f d p = cc
    stuck dr dw false true quiet q f d p = cc
    stuck true dw false false quiet q f d p =
        let w_done = (quiet.ended refl refl f).0 refl in ground arith
    stuck false dw false false quiet q f d p =
        let z = quiet.emptied refl in let r = (quiet.ended refl refl f).1 refl in ground arith

-- What the three steps leave for the decision.
steps-Quiet :
    (w w1 w2 w3 : World) (read write : Moved) (write_pending : Bool)
    → Read w read w1
    → Written w1 write w2
    → Pinged w2 write.1 write_pending w3
    → Quiet read.0 write.0 read.1 write_pending w3
steps-Quiet w w1 w2 w3 read write write_pending r s t = record {
  emptied = λ h. t.3 ∙ s.0 (t.0 h);
  ended = λ p q f. (moved p q, seen p q f);
}
  where
    moved : read.1 ≡ false → write_pending ≡ false → read.0 ≡ true → write.0 ≡ true
    moved p q h = elim (s.1 (t.0 q)) [ inl d ↦ d | inr z ↦ absurd (omega (arith, z, r.2 h)) ]

    seen :
        read.1 ≡ false
        → write_pending ≡ false
        → w3.state.need_flush ≡ false
        → read.0 ≡ false
        → w3.state.read_done ≡ true
    seen p q f h = elim (r.1 h p) [
      | inl d ↦ t.2 ∙ (s.3 ∙ d)
      | inr some_cached ↦ elim (s.1 (t.0 q)) [
        | inl d ↦ let g = t.1 (s.2 d) in cc
        | inr z ↦ absurd (omega (arith, z, some_cached))
      ]
    ]

round-Decides :
    (room : ℕ) (pings : Bool) (w : World)
    → IsValid room w
    → Ensures room w (Decides w) (round pings w)
unfolding round
round-Decides room pings w v =
    bound-Ensures room w (Read w) (Decides w) (reading w) _ (reading-Ensures room w v)
      (λ read w1 k1 r.
        bound-Ensures room w1 (Written w1) (Decides w) (writing w1) _
          (writing-Ensures room w1 (Keeps-IsValid room w w1 k1))
          (λ write w2 k2 s.
            bound-Ensures room w2 (Pinged w2 write.1) (Decides w) (pinging pings write.1 w2) _
              (pinging-Ensures room pings write.1 w2 (Keeps-IsValid room w1 w2 k2))
              (λ write_pending w3 k3 t.
                decide-Decides room w w3 read.0 write.0 read.1 write_pending
                  (Keeps-IsValid room w2 w3 k3) (omega (arith, k1.fewer, k2.fewer, k3.fewer))
                  (λ d. omega (arith, r.0 d, k2.fewer, k3.fewer))
                  (steps-Quiet w w1 w2 w3 read write write_pending r s t))))

-- What a call returns: success only where all is read and passed on.
abbrev Ends : ℕ → World → Option Done → Type 0
Ends room w o =
    (r : Poll (Result (Unit {0}))) × (w' : World) × (o ≡ some (r, w'))
    × Keeps room w w'
    × (r ≢ ready panic)
    × (r ≡ ready (ok tt) → (w'.state.read_done ≡ true) × (w'.state.cache_length ≡ 0))

module _ (room : ℕ) (pings : Bool) where
  rounds-Ends :
      (fuel : ℕ) (w : World)
      → IsValid room w
      → answers_left w < fuel
      → Ends room w (rounds fuel pings w)
  unfolding rounds verdict
  rounds-Ends zero w v h = absurd (omega arith)
  rounds-Ends (suc fuel) w v h =
      went (rounds-Ends fuel) (round pings w) refl (round-Decides room pings w v)
    where
      went :
          ((w' : World)
            → IsValid room w'
            → answers_left w' < fuel
            → Ends room w' (rounds fuel pings w'))
          → (out : Result Verdict × World) → round pings w ≡ out
          → Ensures room w (Decides w) out
          → Ends room w (rounds (suc fuel) pings w)
      went ih (ok (returns r), w') e (k, d) = (r, w', rw (e, rounds) refl, k, d.0, d.1)
      went ih (ok continues, w') e (k, d) =
          let (r, w'', q, k', c, f) = ih w' (Keeps-IsValid room w w' k) (omega (arith, d)) in
          (r, w'', rw (e, rounds) q, Keeps-trans room w w' w'' k k', c, f)
      went ih (err x, w') e k = (ready (err x), w', rw (e, rounds) refl, k, (λ q. cc), (λ q. cc))
      went ih (panic, w') e k = absurd k

-- All the messages of a direction, and those before its end with whether there is an end.
abbrev pub Cargo : Type 0
Cargo = List (List ℕ) × (List (List ℕ) × Bool)

abbrev pub cargo : ℕ → World → Cargo
cargo room w = (queue room w, promise room w)

-- All is sent: the end was among the arrivals, what was sent are the messages before it, and none of those
-- behind it is lost.
abbrev pub Ended : ℕ → Cargo → World → Type 0
Ended room messages w =
    (messages.1.1 ≡ true)
    × (w.out.sent ≡ messages.1.0)
    × (w.out.sent ++ arriving_messages room w.incoming ≡ messages.0)

ended :
    (room : ℕ) (w : World)
    → w.state.read_done ≡ true
    → w.state.cache_length ≡ 0
    → Ended room (cargo room w) w
ended room w d h = rw (d, h) (refl, sym (append-nil w.out.sent), refl)

-- `poll_copy` of messages returns, whatever the reader and the writer answer, and does not panic: no slice of
-- its memory is out of its bounds. The messages that are sent, the one that waits and those that still arrive
-- are together the same messages as before, each whole, in the same order; and so are they up to the end of
-- the reader's stream. Where it returns success, that end was among the answers, all the messages before it
-- are sent, and those behind it still arrive.
pub poll_copy-Passes :
    (room : ℕ) (budget pings : Bool) (w : World)
    → IsValid room w
    → (r : Poll (Result (Unit {0}))) × (w' : World) × (poll_copy budget pings w ≡ some (r, w'))
      × (cargo room w' ≡ cargo room w)
      × IsValid room w'
      × (r ≢ ready panic)
      × (r ≡ ready (ok tt) → Ended room (cargo room w) w')
unfolding poll_copy
poll_copy-Passes room false pings w v = (pending, w, refl, refl, v, (λ q. cc), (λ q. cc))
poll_copy-Passes room true pings w v =
    let (r, w', e, k, c, f) = rounds-Ends room pings (answers_left w + 1) w v (omega arith) in
    let same : cargo room w' ≡ cargo room w = ap₂ (λ a b. (a, b)) k.same k.promised in
    (
      r,
      w',
      e,
      same,
      Keeps-IsValid room w w' k,
      c,
      λ h. let (d, z) = f h in subst (λ m. Ended room m w') same (ended room w' d z),
    )
