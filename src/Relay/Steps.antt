-- ===== src/Relay/Steps.antt =====
-- src/udp_relay.rs, CopyBuffer::poll_copy: what the reading, the writing and the ping of a round keep.
use rust_proxy.Prelude.{
  ℕ, ◌≤◌, ◌<◌, ◌≡◌, refl, ◌∙◌, subst, ap, leb, ◌⊎◌, inl, inr, Bool, true, false, not, ◌&&◌, List,
  [], ◌∷◌, ◌++◌, append_assoc, arith, ltb, ◌==◌, if◌then◌else◌, length, take, length-take, write_at,
  length-write_at, Arrival, not_yet, breaks, arrives, Answer, busy, fails, takes, Result, ok, err,
  panic, ready, take-write_at_start, if-cases,
}
use rust_proxy.Relay.{
  CopyBuffer, Outbox, World, Step, bound, Moved, poll_message, write_by, done_by, read_answer,
  reading, cached_bytes, write_answer, writing, ping_answer, pinging, answers_left,
}

-- A message that arrives, if it is one: an empty one is the end of the stream.
abbrev pub posted : List ℕ → List (List ℕ) → List (List ℕ)
posted [] rest = rest
posted (x ∷ xs) rest = (x ∷ xs) ∷ rest

abbrev pub arriving_messages : ℕ → List Arrival → List (List ℕ)
arriving_messages room [] = []
arriving_messages room (not_yet ∷ rest) = arriving_messages room rest
arriving_messages room (breaks e ∷ rest) = arriving_messages room rest
arriving_messages room (arrives bs ∷ rest) = posted (take room bs) (arriving_messages room rest)

-- The messages that are still to come before the end of the stream, and whether that end is seen or to come.
abbrev pub before_end : List ℕ → List (List ℕ) × Bool → List (List ℕ) × Bool
before_end [] rest = ([], true)
before_end (x ∷ xs) rest = ((x ∷ xs) ∷ rest.0, rest.1)

abbrev pub to_end : ℕ → List Arrival → List (List ℕ) × Bool
to_end room [] = ([], false)
to_end room (not_yet ∷ rest) = to_end room rest
to_end room (breaks e ∷ rest) = to_end room rest
to_end room (arrives bs ∷ rest) = before_end (take room bs) (to_end room rest)

-- The same where the flag says that the end is seen.
abbrev pub to_come : ℕ → Bool → List Arrival → List (List ℕ) × Bool
to_come room true es = ([], true)
to_come room false es = to_end room es

-- The message that waits in the buffer.
abbrev pub waiting : CopyBuffer → List (List ℕ)
waiting c = if c.cache_length == 0 then [] else (cached_bytes c ∷ [])

-- The messages of a direction: sent, waiting, and still to arrive.
abbrev pub queue : ℕ → World → List (List ℕ)
queue room w = w.out.sent ++ (waiting w.state ++ arriving_messages room w.incoming)

-- The messages that are sent when all is done, and whether the end is seen or to come.
abbrev pub promise : ℕ → World → List (List ℕ) × Bool
promise room w =
    let a = to_come room w.state.read_done w.incoming in
    (w.out.sent ++ (waiting w.state ++ a.0), a.1)

-- What each step keeps.
pub record Keeps (room : ℕ) (w w' : World) : Type 0 where
  pub same : queue room w' ≡ queue room w
  pub promised : promise room w' ≡ promise room w
  pub memory : length w'.state.buf ≡ room
  pub fits : w'.state.cache_length ≤ room
  pub fewer : answers_left w' ≤ answers_left w

pub record IsValid (room : ℕ) (w : World) : Type 0 where
  pub memory : length w.state.buf ≡ room
  pub fits : w.state.cache_length ≤ room

-- What a step may give, with `Post` of the value and the world.
abbrev pub Ensures : {A : Type 0} → ℕ → World → (A → World → Type 0) → Result A × World → Type 0
Ensures room w Post (ok a, w') = Keeps room w w' × Post a w'
Ensures room w Post (err e, w') = Keeps room w w'
Ensures room w Post (panic, w') = ⊥

module _ (room : ℕ) where
  pub kept : (w : World) → IsValid room w → Keeps room w w
  kept w v = record {
    same = refl;
    promised = refl;
    memory = v.memory;
    fits = v.fits;
    fewer = omega arith;
  }

  pub Keeps-trans : (u v w : World) → Keeps room u v → Keeps room v w → Keeps room u w
  Keeps-trans u v w a b = record {
    same = b.same ∙ a.same;
    promised = b.promised ∙ a.promised;
    memory = b.memory;
    fits = b.fits;
    fewer = omega (arith, a.fewer, b.fewer);
  }

  pub Keeps-IsValid : (u w : World) → Keeps room u w → IsValid room w
  Keeps-IsValid u w k = record { memory = k.memory; fits = k.fits }

  pub bound-Ensures :
      {A B : Type 0} (w : World) (Post : A → World → Type 0) (Goal : B → World → Type 0)
      (out : Result A × World) (f : A → Step B)
      → Ensures room w Post out
      → ((a : A) (w' : World) → Keeps room w w' → Post a w' → Ensures room w' Goal (f a w'))
      → Ensures room w Goal (bound out f)
  bound-Ensures w Post Goal (ok a, w') f h g = further (f a w') (g a w' h.0 h.1)
    where
      further : (out : Result _ × World) → Ensures room w' Goal out → Ensures room w Goal out
      further (ok b, w'') k = (Keeps-trans w w' w'' h.0 k.0, k.1)
      further (err e, w'') k = Keeps-trans w w' w'' h.0 k
      further (panic, w'') k = k
  bound-Ensures w Post Goal (err e, w') f h g = h
  bound-Ensures w Post Goal (panic, w') f h g = h

-- What is known behind the reading, the writing and the ping of a round that began in `w`.
abbrev pub Read : World → Moved → World → Type 0
Read w (did_read, read_pending) w' =
    (did_read ≡ true → answers_left w' < answers_left w)
    × (did_read ≡ false
        → read_pending ≡ false
        → (w'.state.read_done ≡ true) ⊎ (0 < w'.state.cache_length))
    × (did_read ≡ true → 0 < w'.state.cache_length)

abbrev pub Written : World → Moved → World → Type 0
Written w (did_write, write_pending) w' =
    (write_pending ≡ false → w'.state.cache_length ≡ 0)
    × (write_pending ≡ false → (did_write ≡ true) ⊎ (w.state.cache_length ≡ 0))
    × (did_write ≡ true → w'.state.need_flush ≡ true)
    × (w'.state.read_done ≡ w.state.read_done)

abbrev pub world : CopyBuffer → List Arrival → Outbox → World
world c es k = record { state = c; incoming = es; out = k }

-- A step that moves no message.
pub still :
    (room : ℕ) (w w' : World)
    → IsValid room w
    → w'.out.sent ≡ w.out.sent
    → w'.state.cache_length ≡ w.state.cache_length
    → w'.state.buf ≡ w.state.buf
    → to_come room w'.state.read_done w'.incoming ≡ to_come room w.state.read_done w.incoming
    → arriving_messages room w'.incoming ≡ arriving_messages room w.incoming
    → answers_left w' ≤ answers_left w
    → Keeps room w w'
still room w w' v o c b h a f = record {
  promised = rw (o, c, b, h) refl;
  same = rw (o, c, b, a) refl;
  memory = rw b v.memory;
  fits = rw c v.fits;
  fewer = f;
}

module _ (c : CopyBuffer) (k : Outbox) (empty : c.cache_length ≡ 0)
    (open_ : c.read_done ≡ false) where
  -- A message that is read, of `posted` bytes.
  pub message_arrived :
      (rest : List Arrival) (bs chunk : List ℕ)
      → length chunk ≤ length c.buf
      → take (length c.buf) bs ≡ chunk
      → Ensures
          (length c.buf)
          (world c (arrives bs ∷ rest) k)
          (Read (world c (arrives bs ∷ rest) k))
          (read_answer (world c (arrives bs ∷ rest) k) (ready (ok chunk), rest))
  unfolding read_answer
  message_arrived rest bs [] h e = (
    record {
      same = rw (empty, e) refl;
      promised = rw (open_, e) refl;
      memory = refl;
      fits = omega (arith, empty);
      fewer = omega arith;
    },
    ((λ q. cc), (λ _ _. inl refl), (λ q. cc)),
  )
  message_arrived rest bs (x ∷ xs) h e =
      let filled : length (write_at c.buf 0 (x ∷ xs)) ≡ length c.buf =
        length-write_at c.buf 0 (x ∷ xs) (omega arith) in
      let front : take (length (x ∷ xs)) (write_at c.buf 0 (x ∷ xs)) ≡ x ∷ xs =
        take-write_at_start c.buf (x ∷ xs) in
      let nonempty : (length (x ∷ xs) == 0) ≡ false = ground arith in
      (
        record {
          same = rw (nonempty, empty, e, front) refl;
          promised = rw (nonempty, empty, open_, e, front) refl;
          memory = filled;
          fits = h;
          fewer = omega arith;
        },
        ((λ _. omega arith), (λ q. cc), (λ _. omega arith)),
      )

  pub read_answer-Ensures :
      (es : List Arrival)
      → Ensures
          (length c.buf)
          (world c es k)
          (Read (world c es k))
          (read_answer (world c es k) (poll_message (length c.buf) es))
  unfolding read_answer
  read_answer-Ensures [] = (
    kept (length c.buf) (world c [] k) (record { memory = refl; fits = omega (arith, empty) }),
    ((λ q. cc), (λ _ q. cc), (λ q. cc)),
  )
  read_answer-Ensures (not_yet ∷ rest) = (
    still (length c.buf) _ _ (record { memory = refl; fits = omega (arith, empty) }) refl refl refl
        (rw open_ refl) refl (omega arith),
    ((λ q. cc), (λ _ q. cc), (λ q. cc)),
  )
  read_answer-Ensures (breaks e ∷ rest) =
      still (length c.buf) _ _ (record { memory = refl; fits = omega (arith, empty) }) refl refl
        refl (rw open_ refl) refl (omega arith)
  read_answer-Ensures (arrives bs ∷ rest) =
      message_arrived rest bs (take (length c.buf) bs)
        (omega (arith, length-take (length c.buf) bs)) refl

pub reading-Ensures : (room : ℕ) (w : World) → IsValid room w → Ensures room w (Read w) (reading w)
unfolding reading
reading-Ensures room w v =
    if-cases (Ensures room w (Read w)) (not w.state.read_done && (w.state.cache_length == 0)) _ _
      (λ q.
        subst
          (λ n. Ensures n w (Read w) (read_answer w (poll_message (length w.state.buf) w.incoming)))
          v.memory (read_answer-Ensures w.state w.out (ground arith) (ground arith) w.incoming))
      (λ q. (kept room w v, ((λ h. cc), (λ _ _. ground arith), (λ h. cc))))

module _ (room : ℕ) (c : CopyBuffer) (es : List Arrival) where
  pub write_by-Ensures :
      (answers : List Answer) (sent : List (List ℕ))
      → (let w = world c es (record { answers = answers; sent = sent }) in
          IsValid room w
          → 0 < c.cache_length
          → Ensures room w (Written w) (write_answer w (write_by answers sent (cached_bytes c))))
  unfolding write_answer write_by
  write_by-Ensures [] sent v h = (kept room _ v, ((λ q. cc), (λ q. cc), (λ q. cc), refl))
  write_by-Ensures (busy ∷ rest) sent v h = (
    still room _ _ v refl refl refl refl refl (omega arith),
    ((λ q. cc), (λ q. cc), (λ q. cc), refl),
  )
  write_by-Ensures (fails e ∷ rest) sent v h =
      still room _ _ v refl refl refl refl refl (omega arith)
  write_by-Ensures (takes n ∷ rest) sent v h =
      let some_cached : (c.cache_length == 0) ≡ false = ground arith in
      (
        record {
          same =
              simp some_cached
                (append_assoc sent (cached_bytes c ∷ []) (arriving_messages room es));
          promised =
              let a = to_come room c.read_done es in
              simp some_cached (
                ap (λ (t : List (List ℕ)). (t, a.1)) (append_assoc sent (cached_bytes c ∷ []) a.0));
          memory = v.memory;
          fits = omega arith;
          fewer = omega arith;
        },
        ((λ _. refl), (λ _. inl refl), (λ _. refl), refl),
      )

pub writing-Ensures :
    (room : ℕ) (w : World) → IsValid room w → Ensures room w (Written w) (writing w)
unfolding writing
writing-Ensures room w v =
    if-cases (Ensures room w (Written w)) (ltb 0 w.state.cache_length) _ _
      (λ q.
        let inside : leb w.state.cache_length (length w.state.buf) ≡ true =
          ground (arith, v.fits, v.memory) in
        simp inside
          (write_by-Ensures room w.state w.incoming w.out.answers w.out.sent v (ground arith)))
      (λ q. (kept room w v, ((λ _. ground arith), (λ _. inr (ground arith)), (λ h. cc), refl)))

-- What is known behind the ping: the flags that count stay.
abbrev pub Pinged : World → Bool → Bool → World → Type 0
Pinged w blocked write_pending w' =
    (write_pending ≡ false → blocked ≡ false)
    × (w.state.need_flush ≡ true → w'.state.need_flush ≡ true)
    × (w'.state.read_done ≡ w.state.read_done)
    × (w'.state.cache_length ≡ w.state.cache_length)

module _ (room : ℕ) (c : CopyBuffer) (es : List Arrival) (pings : Bool) where
  pub done_by-Pinged :
      (answers : List Answer) (sent : List (List ℕ))
      → (let w = world c es (record { answers = answers; sent = sent }) in
          IsValid room w
          → Ensures room w (Pinged w false) (ping_answer pings w (done_by answers sent)))
  unfolding ping_answer done_by
  done_by-Pinged [] sent v = (kept room _ v, ((λ q. refl), (λ q. q), refl, refl))
  done_by-Pinged (busy ∷ rest) sent v =
      (still room _ _ v refl refl refl refl refl (omega arith), ((λ q. refl), (λ q. q), refl, refl))
  done_by-Pinged (fails e ∷ rest) sent v = still room _ _ v refl refl refl refl refl (omega arith)
  done_by-Pinged (takes n ∷ rest) sent v = (
    still room _ _ v refl refl refl refl refl (omega arith),
    ((λ q. refl), (λ q. simp q refl), refl, refl),
  )

pub pinging-Ensures :
    (room : ℕ) (pings blocked : Bool) (w : World)
    → IsValid room w
    → Ensures room w (Pinged w blocked) (pinging pings blocked w)
unfolding pinging
pinging-Ensures room pings true w v = (kept room w v, ((λ q. q), (λ q. q), refl, refl))
pinging-Ensures room pings false w v =
    if-cases (Ensures room w (Pinged w false)) w.state.need_write_ping _ _
      (λ _. done_by-Pinged room w.state w.incoming pings w.out.answers w.out.sent v)
      (λ _. (kept room w v, ((λ q. q), (λ q. q), refl, refl)))
