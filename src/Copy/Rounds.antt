-- ===== src/Copy/Rounds.antt =====
-- src/copy_bidirectional.rs, CopyBuffer::poll_copy: the parts of a round behind the loop of reads.
use rust_proxy.Prelude.{
  ℕ, ◌<◌, ◌≡◌, refl, ap, ◌≢◌, ◌⊎◌, inl, inr, Bool, true, false, ◌&&◌, ◌||◌, List, arith, ◌==◌,
  if◌then◌else◌, Bool-cases, length, Sink, poll_done, poll_done_lem, Result, ok, err, panic, Poll,
  pending, ready,
}
use rust_proxy.Copy.{
  CopyBuffer, World, Phase, Done, with_ring, ping_answer, ping, decide, flush_answer, after_write,
}
use rust_proxy.Copy.Ring.{IsValid}
use rust_proxy.Copy.Fifo.{Keeps, Keeps-refl, Keeps-trans, still, same_ring}

-- What a round may give: an end, where success means that all was read and written; or another round,
-- after it has sent a byte.
abbrev pub Rounds : World → Done ⊎ World → Type 0
Rounds w (inl (r, w')) =
    Keeps w w'
    × (r ≢ ready panic)
    × (r ≡ ready (ok tt) → (w'.ring.read_done ≡ true) × (w'.ring.cache_length ≡ 0))
Rounds w (inr w') = Keeps w w' × (length w.out.sent < length w'.out.sent)

-- A round that has no side pending ends with the ring empty, and has sent something if more is to be read.
pub record Progress (w w' : World) (some_pending : Bool) : Type 0 where
  pub keeps : Keeps w w'
  pub empty : some_pending ≡ false → w'.ring.cache_length ≡ 0
  pub sent :
      some_pending ≡ false → w'.ring.read_done ≡ false → length w.out.sent < length w'.out.sent

pub decide-Rounds :
    (w w' : World) (some_pending : Bool)
    → Progress w w' some_pending
    → Rounds w (decide some_pending w')
unfolding decide
decide-Rounds w w' p g = elim (Bool-cases (w'.ring.read_done && (w'.ring.cache_length == 0))) [
  | inl e ↦ simp e (g.keeps, λ h. cc, λ h. ground arith)
  | inr e ↦ simp e (pended p g e)
]
  where
    pended :
        (p : Bool)
        → Progress w w' p
        → (w'.ring.read_done && (w'.ring.cache_length == 0)) ≡ false
        → Rounds w (if p then inl (pending, w') else inr w')
    pended true g e = (g.keeps, λ h. cc, λ h. cc)
    pended false g e = let z = g.empty refl in (g.keeps, g.sent refl (ground arith))

pub flush_answer-Rounds :
    (w w' : World) (p : Bool) (r : Poll (Result (Unit {0}))) (k : Sink)
    → Progress w w' p
    → k.sent ≡ w'.out.sent
    → r ≢ ready panic
    → Rounds w (flush_answer p w' (r, k))
unfolding flush_answer
flush_answer-Rounds w w' p r k g o c = flushed r c
  where
    calm : (w'' : World) → w''.ring ≡ w'.ring → Keeps w w'
    calm w'' e = g.keeps

    kept : Keeps w' (record w' { out = k })
    kept = still _ _ refl g.keeps.valid refl (λ h. h) refl refl o

    clean : World
    clean = record w' { ring = record (w'.ring) { need_flush = false }; out = k }

    kept_clean : Keeps w' clean
    kept_clean =
        still _ _ refl (same_ring g.keeps.valid refl refl refl refl) refl (λ h. h) refl refl o

    progress : Progress w clean p
    progress = record {
      keeps = Keeps-trans g.keeps kept_clean;
      empty = g.empty;
      sent = λ h d. omega (arith, g.sent h d, ap (λ (t : List ℕ). length t) o);
    }

    flushed : (r : Poll (Result (Unit {0}))) → r ≢ ready panic → Rounds w (flush_answer p w' (r, k))
    flushed pending c = (Keeps-trans g.keeps kept, λ h. cc, λ h. cc)
    flushed (ready (err e)) c = (Keeps-trans g.keeps kept, λ h. cc, λ h. cc)
    flushed (ready panic) c = absurd (c refl)
    flushed (ready (ok _)) c = decide-Rounds w clean p progress

pub after_write-Rounds :
    (w w' : World) (p : Bool) (r : Result Bool)
    → Keeps w w'
    → r ≢ panic
    → ((b : Bool) → r ≡ ok b → Progress w w' (p || b))
    → Rounds w (after_write p (r, w'))
unfolding after_write
after_write-Rounds w w' p (err e) k c g = (k, λ h. cc, λ h. cc)
after_write-Rounds w w' p panic k c g = absurd (c refl)
after_write-Rounds w w' p (ok b) k c g = elim (Bool-cases w'.ring.need_flush) [
  | inl e ↦
      let (o, calm) = poll_done_lem w'.out in
      simp e (
        flush_answer-Rounds w w' (p || b) (poll_done w'.out).0 (poll_done w'.out).1 (g b refl) o
          calm)
  | inr e ↦ simp e (decide-Rounds w w' (p || b) (g b refl))
]

-- `poll_write_ping` moves no byte of the copy.
pub record Pinged (w : World) (p : Phase) : Type 0 where
  pub keeps : Keeps w p.1
  pub cached : p.1.ring.cache_length ≡ w.ring.cache_length
  pub done : p.1.ring.read_done ≡ w.ring.read_done
  pub calm : p.0 ≢ panic

module _ (w : World) (v : IsValid w.ring) where
  ping_answer-Pinged :
      (pings : Bool) (r : Poll (Result (Unit {0}))) (k : Sink)
      → k.sent ≡ w.out.sent
      → r ≢ ready panic
      → Pinged w (ping_answer w pings (r, k))
  unfolding ping_answer
  ping_answer-Pinged pings pending k o c = record {
    keeps = still _ _ refl v refl (λ h. h) refl refl o;
    cached = refl;
    done = refl;
    calm = λ h. cc;
  }
  ping_answer-Pinged pings (ready (err e)) k o c = record {
    keeps = still _ _ refl v refl (λ h. h) refl refl o;
    cached = refl;
    done = refl;
    calm = λ h. cc;
  }
  ping_answer-Pinged pings (ready panic) k o c = absurd (c refl)
  ping_answer-Pinged pings (ready (ok _)) k o c = record {
    keeps = still _ _ refl (same_ring v refl refl refl refl) refl (λ h. h) refl refl o;
    cached = refl;
    done = refl;
    calm = λ h. cc;
  }

  pub unpinged : (c : CopyBuffer) → Pinged w (ok false, w)
  unpinged c = record { keeps = Keeps-refl w v; cached = refl; done = refl; calm = λ h. cc }

  pub skipped : Pinged w (ok false, with_ring w (record (w.ring) { need_write_ping = false }))
  skipped = record {
    keeps = still _ _ refl (same_ring v refl refl refl refl) refl (λ h. h) refl refl refl;
    cached = refl;
    done = refl;
    calm = λ h. cc;
  }

  pub ping-Pinged : (pings : Bool) → Pinged w (ping pings w)
  unfolding ping
  ping-Pinged pings = elim (Bool-cases w.ring.need_write_ping) [
    | inl e ↦ elim (Bool-cases (w.ring.cache_length == 0)) [
      | inl f ↦
          let (o, calm) = poll_done_lem w.out in
          simp (e, f) (ping_answer-Pinged pings (poll_done w.out).0 (poll_done w.out).1 o calm)
      | inr f ↦ simp (e, f) skipped
    ]
    | inr e ↦ simp e (unpinged w.ring)
  ]
