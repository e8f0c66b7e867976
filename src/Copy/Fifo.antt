-- ===== src/Copy/Fifo.antt =====
-- src/copy_bidirectional.rs, CopyBuffer::poll_copy: every byte that is read is written once, in order.
use rust_proxy.Prelude.{
  ℕ, zero, suc, ◌+◌, ◌-◌, ◌≤◌, ◌<◌, min, ◌≡◌, refl, sym, ap, ap₂, ◌∙◌, ◌≢◌, ◌⊎◌, inl, inr, Bool,
  true, false, not, ◌&&◌, some, List, [], ◌∷◌, ◌++◌, append-nil, append_assoc, arith, ltb, ◌==◌,
  if◌then◌else◌, Bool-cases, length, take, length-append, length-take, Arrival, not_yet, breaks,
  arrives, poll_read, arriving, keep, arriving-keep, until_end, has_end, ahead, ahead_of,
  ahead-keep, Answer, busy, fails, takes, Sink, poll_write, write_by, Result, ok, err, panic, ready,
}
use rust_proxy.Copy.{
  CopyBuffer, World, Phase, unused_start, unused_end, fill_ring, used, drain_ring, read_answer,
  read_turn, write_answer, write_turn, phase,
}
use rust_proxy.Copy.Ring.{
  room-pos, free_inside, used_inside, IsValid, contents, contents-fill_ring, contents-drain_ring,
}

-- The bytes of a direction: sent, waiting in the ring, and still to arrive.
abbrev pub stream : World → List ℕ
stream w = w.out.sent ++ (contents w.ring ++ arriving w.incoming)

-- The bytes that are sent when all is done: sent, waiting in the ring, and still to arrive before the end
-- of the reader's stream; and whether that end is seen or is to come.
abbrev pub promise : World → List ℕ × Bool
promise w =
    let a = ahead w.ring.read_done w.incoming in (w.out.sent ++ (contents w.ring ++ a.0), a.1)

-- What each step keeps.
pub record Keeps (w w' : World) : Type 0 where
  pub promised : promise w' ≡ promise w
  pub same : stream w' ≡ stream w
  pub valid : IsValid w'.ring
  pub memory : w'.ring.size ≡ w.ring.size
  pub mono : w.ring.read_done ≡ true → w'.ring.read_done ≡ true
  pub fewer : length (arriving w'.incoming) ≤ length (arriving w.incoming)
  pub grows : length w.out.sent ≤ length w'.out.sent

-- A step that moves no byte.
pub still :
    (w w' : World)
    → contents w'.ring ≡ contents w.ring
    → IsValid w'.ring
    → w'.ring.size ≡ w.ring.size
    → (w.ring.read_done ≡ true → w'.ring.read_done ≡ true)
    → ahead w'.ring.read_done w'.incoming ≡ ahead w.ring.read_done w.incoming
    → arriving w'.incoming ≡ arriving w.incoming
    → w'.out.sent ≡ w.out.sent
    → Keeps w w'
still w w' c v m d h a o = record {
  same = rw (o, c, a) refl;
  promised = rw (o, c, h) refl;
  valid = v;
  memory = m;
  mono = d;
  fewer = omega (arith, ap (λ (t : List ℕ). length t) a);
  grows = omega (arith, ap (λ (t : List ℕ). length t) o);
}

pub Keeps-refl : (w : World) → IsValid w.ring → Keeps w w
Keeps-refl w v = still w w refl v refl (λ h. h) refl refl refl

pub Keeps-trans : {u v w : World} → Keeps u v → Keeps v w → Keeps u w
Keeps-trans a b = record {
  same = b.same ∙ a.same;
  promised = b.promised ∙ a.promised;
  valid = b.valid;
  memory = b.memory ∙ a.memory;
  mono = λ h. b.mono (a.mono h);
  fewer = omega (arith, a.fewer, b.fewer);
  grows = omega (arith, a.grows, b.grows);
}

-- What a turn may give: `Post` holds where the loop ends by its test, and `measure` falls where it goes
-- round again.
abbrev pub Sound : (World → Type 0) → (World → ℕ) → World → Phase ⊎ World → Type 0
Sound Post measure w (inl (r, w')) = Keeps w w' × (r ≢ panic) × (r ≡ ok false → Post w')
Sound Post measure w (inr w') = Keeps w w' × (measure w' < measure w)

abbrev pub AllRead : World → Type 0
AllRead w = (w.ring.read_done ≡ true) ⊎ (w.ring.size ≤ w.ring.cache_length)

abbrev pub to_read : World → ℕ
to_read w = if w.ring.read_done then 0 else w.ring.size - w.ring.cache_length + 1

abbrev pub AllWritten : World → Type 0
AllWritten w = w.ring.cache_length ≡ 0

abbrev pub to_write : World → ℕ
to_write w = w.ring.cache_length

abbrev world : CopyBuffer → List Arrival → Sink → World
world c es k = record { ring = c; incoming = es; out = k }

-- The invariant reads three fields, and the memory.
pub same_ring :
    {c c' : CopyBuffer}
    → IsValid c
    → c'.buf ≡ c.buf
    → c'.start_index ≡ c.start_index
    → c'.cache_length ≡ c.cache_length
    → c'.size ≡ c.size
    → IsValid c'
same_ring {c} {c'} v e f g h = record {
  memory = rw (e, h) v.memory;
  start_in = omega (arith, v.start_in);
  cache_in = omega (arith, v.cache_in);
}

module _ (c : CopyBuffer) (v : IsValid c) (k : Sink) where
  -- The transport gave no byte.
  idle :
      (es es' : List Arrival) (r : Result Bool)
      → ahead c.read_done es' ≡ ahead c.read_done es
      → arriving es' ≡ arriving es
      → r ≢ panic
      → r ≢ ok false
      → Sound AllRead to_read (world c es k) (inl (r, world c es' k))
  idle es es' r f a p q = (still _ _ refl v refl (λ h. h) f a refl, p, λ h. absurd (q h))

  got :
      (es rest : List Arrival) (chunk : List ℕ)
      → c.read_done ≡ false
      → c.cache_length < c.size
      → length chunk ≤ unused_end c - unused_start c
      → chunk ++ arriving rest ≡ arriving es
      → ahead false es ≡ ahead_of chunk rest
      → Sound AllRead to_read (world c es k) (read_answer (world c es k) (ready (ok chunk), rest))
  unfolding read_answer
  got es rest [] d h h' e f = (
    still _ _ refl (same_ring v refl refl refl refl) refl (λ _. refl) (rw d (sym f)) e refl,
    ground arith,
  )
  got es rest (x ∷ xs) d h h' e f =
      let (grown, valid) = contents-fill_ring c v (x ∷ xs) h h' in
      (
        record {
          same =
              ap (λ t. k.sent ++ t)
                (ap (λ t. t ++ arriving rest) grown
                  ∙ (append_assoc (contents c) (x ∷ xs) (arriving rest)
                      ∙ ap (λ t. contents c ++ t) e));
          promised =
              let d' : (fill_ring c (x ∷ xs)).read_done ≡ false = unfold fill_ring in d in
              ap₂ (λ (ct : List ℕ) (a : List ℕ × Bool). (k.sent ++ (ct ++ a.0), a.1)) grown
                (ap (λ b. ahead b rest) d')
              ∙ (ap (λ (t : List ℕ). (k.sent ++ t, has_end rest))
                    (append_assoc (contents c) (x ∷ xs) (until_end rest))
                  ∙ sym (
                      ap (λ (a : List ℕ × Bool). (k.sent ++ (contents c ++ a.0), a.1))
                        (ap (λ b. ahead b es) d ∙ f)));
          valid = valid;
          memory = unfold fill_ring in refl;
          mono = λ q. unfold fill_ring in q;
          fewer =
              omega
                (arith, ap (λ (t : List ℕ). length t) e, length-append (x ∷ xs) (arriving rest));
          grows = omega arith;
        },
        unfold fill_ring in ground arith,
      )

  read_answer-Sound :
      (es : List Arrival)
      → c.read_done ≡ false
      → c.cache_length < c.size
      → Sound AllRead to_read
          (world c es k)
          (read_answer (world c es k) (poll_read (unused_end c - unused_start c) es))
  unfolding read_answer
  read_answer-Sound [] d h = idle [] [] (ok true) refl refl (λ e. cc) (λ e. cc)
  read_answer-Sound (not_yet ∷ es) d h =
      idle (not_yet ∷ es) es (ok true) (rw d refl) refl (λ e. cc) (λ e. cc)
  read_answer-Sound (breaks x ∷ es) d h =
      idle (breaks x ∷ es) es (err _) (rw d refl) refl (λ e. cc) (λ e. cc)
  read_answer-Sound (arrives bs ∷ es) d h =
      let room = unused_end c - unused_start c in
      got (arrives bs ∷ es) (keep room bs es) (take room bs) d h
        (omega (arith, length-take room bs)) (arriving-keep room bs es)
        (ahead-keep room bs es (room-pos c v h))

  module _ (es : List Arrival) (some_cached : 0 < c.cache_length) where
    unsent :
        (k' : Sink) (r : Result Bool)
        → k'.sent ≡ k.sent
        → r ≢ panic
        → r ≢ ok false
        → Sound AllWritten to_write (world c es k) (inl (r, world c es k'))
    unsent k' r o p q = (still _ _ refl v refl (λ h. h) refl refl o, p, λ h. absurd (q h))

    sent_some :
        (n : ℕ) (rest : List Answer)
        → n ≤ length (used c)
        → Sound AllWritten to_write (world c es k) (
            write_answer
              (world c es k)
              (ready (ok n), record { answers = rest; sent = k.sent ++ take n (used c) }))
    unfolding write_answer
    sent_some n rest h = elim (Bool-cases (n == 0)) [
      | inl z ↦
          let none_sent : k.sent ++ take n (used c) ≡ k.sent =
            let e : n ≡ 0 = ground arith in rw (e, append-nil) in
          rw z (
            unsent (record { answers = rest; sent = k.sent ++ take n (used c) }) (err _) none_sent
              (λ e. cc) (λ e. cc))
      | inr z ↦
          let (left, valid) = contents-drain_ring c v n h in
          rw z (
            record {
              same =
                  append_assoc k.sent (take n (used c)) (contents (drain_ring c n) ++ arriving es)
                  ∙ ap (λ t. k.sent ++ t)
                      (sym
                          (append_assoc (take n (used c)) (contents (drain_ring c n)) (arriving es))
                        ∙ ap (λ t. t ++ arriving es) left);
              promised =
                  let a = ahead c.read_done es in
                  let d : (drain_ring c n).read_done ≡ c.read_done = unfold drain_ring in refl in
                  rw d (
                    ap (λ (t : List ℕ). (t, a.1))
                      (append_assoc k.sent (take n (used c)) (contents (drain_ring c n) ++ a.0)
                        ∙ ap (λ t. k.sent ++ t)
                            (sym (append_assoc (take n (used c)) (contents (drain_ring c n)) a.0)
                              ∙ ap (λ t. t ++ a.0) left)));
              valid = valid;
              memory = unfold drain_ring in refl;
              mono = λ q. unfold drain_ring in q;
              fewer = omega arith;
              grows = omega (arith, length-append k.sent (take n (used c)));
            },
            unfold drain_ring in ground arith,
          )
    ]

    write_by-Sound :
        (answers : List Answer)
        → Sound AllWritten to_write
            (world c es k)
            (write_answer (world c es k) (write_by answers k.sent (used c)))
    unfolding write_answer write_by
    write_by-Sound [] =
        unsent (record { answers = []; sent = k.sent }) (ok true) refl (λ e. cc) (λ e. cc)
    write_by-Sound (busy ∷ rest) =
        unsent (record { answers = rest; sent = k.sent }) (ok true) refl (λ e. cc) (λ e. cc)
    write_by-Sound (fails x ∷ rest) =
        unsent (record { answers = rest; sent = k.sent }) (err _) refl (λ e. cc) (λ e. cc)
    write_by-Sound (takes n ∷ rest) = sent_some (min n (length (used c))) rest (omega arith)

pub read_turn-Sound : (w : World) → IsValid w.ring → Sound AllRead to_read w (read_turn w)
unfolding read_turn
read_turn-Sound w v =
    elim (Bool-cases (not w.ring.read_done && ltb w.ring.cache_length w.ring.size)) [
      | inl e ↦
          let below : w.ring.cache_length < w.ring.size = ground arith in
          let inside = free_inside w.ring v below in
          simp (e, inside) (read_answer-Sound w.ring v w.out w.incoming (ground arith) below)
      | inr e ↦ simp e (Keeps-refl w v, λ h. cc, λ h. ground arith)
    ]

pub write_turn-Sound : (w : World) → IsValid w.ring → Sound AllWritten to_write w (write_turn w)
unfolding write_turn poll_write
write_turn-Sound w v = elim (Bool-cases (ltb 0 w.ring.cache_length)) [
  | inl e ↦
      let inside = used_inside w.ring v in
      simp (e, inside) (write_by-Sound w.ring v w.out w.incoming (ground arith) w.out.answers)
  | inr e ↦ simp e (Keeps-refl w v, λ h. cc, λ h. ground arith)
]

module _ (Post : World → Type 0) (measure : World → ℕ) (turn : World → Phase ⊎ World)
    (sound : (w : World) → IsValid w.ring → Sound Post measure w (turn w)) where
  abbrev pub Ends : ℕ → World → Type 0
  Ends fuel w =
      (r : Result Bool) × (w' : World) × (phase turn fuel w ≡ some (r, w'))
      × Keeps w w'
      × (r ≢ panic)
      × (r ≡ ok false → Post w')

  -- A loop of sound turns ends, and what it gives is sound.
  pub phase-Ends : (fuel : ℕ) (w : World) → IsValid w.ring → measure w < fuel → Ends fuel w
  phase-Ends zero w v h = absurd (omega arith)
  phase-Ends (suc fuel) w v h = turned (phase-Ends fuel) (turn w) refl (sound w v)
    where
      turned :
          ((w' : World) → IsValid w'.ring → measure w' < fuel → Ends fuel w')
          → (t : Phase ⊎ World) → turn w ≡ t
          → Sound Post measure w t
          → Ends (suc fuel) w
      turned ih (inl (r, w')) e (k, c, p) = (r, w', unfold phase in rw (e, phase), k, c, p)
      turned ih (inr w') e (k, m) =
          let (r, w'', q, k', c, p) = ih w' k.valid (omega arith) in
          (r, w'', unfold phase in rw (e, phase) q, Keeps-trans k k', c, p)
