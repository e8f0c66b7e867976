-- ===== src/Prelude/Io.antt =====
-- The transport below a stream. What it answers to the next calls is an input of the model: a list
-- of answers, one for each call. Where the list ends the call does not return (`pending`).
use Prim.Native.Nat.{ℕ, min, ◌+◌, ◌≤◌, ◌<◌}
use mathlib.Core.List.{List, [], ◌∷◌, ◌++◌, append_assoc}
use mathlib.Core.Path.{◌≡◌, refl, sym, ap, ◌∙◌, subst}
use mathlib.Core.Bool.{Bool, true, false}
use mathlib.Core.Logic.{inl, inr, ◌≢◌}
use native.Mathlib.Omega.{arith}
use rust_proxy.Prelude.Tests.{◌==◌, leb, if◌then◌else◌, Bool-cases, leb→le}
use rust_proxy.Prelude.Lists.{
  length, length-drop, length-append, take, drop, take-append-drop, length-take,
}
use rust_proxy.Prelude.Slices.{take_all}
use rust_proxy.Prelude.Results.{Error, Result, ok, err, panic, Poll, pending, ready}

-- `arrives []` is the end of the stream.
pub data Arrival : Type 0 where
  not_yet : Arrival
  breaks : ℕ → Arrival
  arrives : List ℕ → Arrival

-- What is left of an arrival after a read of at most `room` bytes.
unfoldable pub keep : ℕ → List ℕ → List Arrival → List Arrival
keep room bs rest = if leb (length bs) room then rest else (arrives (drop room bs) ∷ rest)

-- One read into a buffer with `room` free bytes; what does not fit is kept for the next call.
abbrev pub poll_read : ℕ → List Arrival → Poll (Result (List ℕ)) × List Arrival
poll_read room [] = (pending, [])
poll_read room (not_yet ∷ rest) = (pending, rest)
poll_read room (breaks e ∷ rest) = (ready (err (Error.device e)), rest)
poll_read room (arrives bs ∷ rest) = (ready (ok (take room bs)), keep room bs rest)

-- The bytes that a list of arrivals holds.
abbrev pub arriving : List Arrival → List ℕ
arriving [] = []
arriving (not_yet ∷ rest) = arriving rest
arriving (breaks e ∷ rest) = arriving rest
arriving (arrives bs ∷ rest) = bs ++ arriving rest

-- A read takes what it returns off the front of the arriving bytes.
pub arriving-keep :
    (room : ℕ) (bs : List ℕ) (rest : List Arrival)
    → take room bs ++ arriving (keep room bs rest) ≡ bs ++ arriving rest
unfolding keep
arriving-keep room bs rest = elim (Bool-cases (leb (length bs) room)) [
  | inl e ↦ rw (e, take_all room bs (leb→le _ _ e))
  | inr e ↦ rw e (
      sym (append_assoc (take room bs) (drop room bs) (arriving rest))
      ∙ rw (take-append-drop room bs))
]

-- The bytes up to the end of the stream, and whether the end is among the arrivals.
abbrev pub until_end : List Arrival → List ℕ
until_end [] = []
until_end (not_yet ∷ rest) = until_end rest
until_end (breaks e ∷ rest) = until_end rest
until_end (arrives [] ∷ rest) = []
until_end (arrives (x ∷ xs) ∷ rest) = (x ∷ xs) ++ until_end rest

abbrev pub has_end : List Arrival → Bool
has_end [] = false
has_end (not_yet ∷ rest) = has_end rest
has_end (breaks e ∷ rest) = has_end rest
has_end (arrives [] ∷ rest) = true
has_end (arrives (x ∷ xs) ∷ rest) = has_end rest

-- What a reader is still to get, where the flag says that it has seen the end.
abbrev pub ahead : Bool → List Arrival → List ℕ × Bool
ahead true es = ([], true)
ahead false es = (until_end es, has_end es)

-- The same behind a read that has returned a chunk.
abbrev pub ahead_of : List ℕ → List Arrival → List ℕ × Bool
ahead_of [] rest = ([], true)
ahead_of (x ∷ xs) rest = ((x ∷ xs) ++ until_end rest, has_end rest)

ahead_whole :
    (bs : List ℕ) (rest : List Arrival) → ahead false (arrives bs ∷ rest) ≡ ahead_of bs rest
ahead_whole [] rest = refl
ahead_whole (x ∷ xs) rest = refl

ahead_cut :
    (t d : List ℕ) (rest : List Arrival)
    → 0 < length t
    → 0 < length d
    → ahead false (arrives (t ++ d) ∷ rest) ≡ ahead_of t (arrives d ∷ rest)
ahead_cut [] d rest h k = absurd (omega arith)
ahead_cut (x ∷ xs) [] rest h k = absurd (omega arith)
ahead_cut (x ∷ xs) (y ∷ ys) rest h k =
    ap (λ (t : List ℕ). (t, has_end rest)) (append_assoc (x ∷ xs) (y ∷ ys) (until_end rest))

pub ahead-keep :
    (room : ℕ) (bs : List ℕ) (rest : List Arrival)
    → 0 < room
    → ahead false (arrives bs ∷ rest) ≡ ahead_of (take room bs) (keep room bs rest)
unfolding keep
ahead-keep room bs rest h = elim (Bool-cases (leb (length bs) room)) [
  | inl e ↦ rw (e, take_all room bs (leb→le _ _ e)) (ahead_whole bs rest)
  | inr e ↦
      let cut =
        ahead_cut (take room bs) (drop room bs) rest (ground (arith, length-take room bs))
          (ground (arith, length-drop room bs)) in
      rw e (
        subst
          (λ z.
            ahead false (arrives z ∷ rest)
            ≡ ahead_of (take room bs) (arrives (drop room bs) ∷ rest))
          (take-append-drop room bs) cut)
]

-- The code of an error whose kind is `Interrupted`.
abbrev pub interrupted : ℕ
interrupted = 4

-- A read that is awaited, in a loop that starts again where it was interrupted; `pending` only where the
-- answers end.
unfoldable pub await_read : ℕ → List Arrival → Poll (Result (List ℕ)) × List Arrival
await_read room [] = (pending, [])
await_read room (not_yet ∷ rest) = await_read room rest
await_read room (breaks e ∷ rest) =
    let again = await_read room rest in
    if e == interrupted then again else (ready (err (Error.device e)), rest)
await_read room (arrives bs ∷ rest) = (ready (ok (take room bs)), keep room bs rest)

-- The bytes that awaited reads give before the end of the stream or an error that is not an interruption.
abbrev pub coming : List Arrival → List ℕ
coming [] = []
coming (not_yet ∷ rest) = coming rest
coming (breaks e ∷ rest) = let later = coming rest in if e == interrupted then later else []
coming (arrives [] ∷ rest) = []
coming (arrives (x ∷ xs) ∷ rest) = (x ∷ xs) ++ coming rest

-- The bytes that polls give before one of them waits, fails or meets the end.
abbrev pub at_hand : List Arrival → List ℕ
at_hand [] = []
at_hand (not_yet ∷ rest) = []
at_hand (breaks e ∷ rest) = []
at_hand (arrives [] ∷ rest) = []
at_hand (arrives (x ∷ xs) ∷ rest) = (x ∷ xs) ++ at_hand rest

-- A poll with room gives the first of them.
abbrev pub Hands : ℕ → List Arrival → Poll (Result (List ℕ)) × List Arrival → Type 0
Hands room es out =
    (x : ℕ) × (xs : List ℕ) × (rest : List Arrival) × (out ≡ (ready (ok (x ∷ xs)), rest))
    × (length (x ∷ xs) ≤ room)
    × ((x ∷ xs) ++ at_hand rest ≡ at_hand es)

cut-Hands :
    (t d bs : List ℕ) (rest : List Arrival)
    → t ++ d ≡ bs
    → 0 < length t
    → 0 < length d
    → (x : ℕ) × (xs : List ℕ) × (t ≡ x ∷ xs)
      × ((x ∷ xs) ++ at_hand (arrives d ∷ rest) ≡ bs ++ at_hand rest)
cut-Hands [] d bs rest e h k = absurd (omega arith)
cut-Hands (x ∷ xs) [] bs rest e h k = absurd (omega arith)
cut-Hands (x ∷ xs) (y ∷ ys) bs rest e h k = (
  x,
  xs,
  refl,
  sym (append_assoc (x ∷ xs) (y ∷ ys) (at_hand rest)) ∙ ap (λ t. t ++ at_hand rest) e,
)

pub poll_read-Hands :
    (room : ℕ) (es : List Arrival)
    → 0 < room
    → 0 < length (at_hand es)
    → Hands room es (poll_read room es)
unfolding keep
poll_read-Hands room [] h k = absurd (omega arith)
poll_read-Hands room (not_yet ∷ rest) h k = absurd (omega arith)
poll_read-Hands room (breaks e ∷ rest) h k = absurd (omega arith)
poll_read-Hands room (arrives [] ∷ rest) h k = absurd (omega arith)
poll_read-Hands room (arrives (x ∷ xs) ∷ rest) h k =
    elim (Bool-cases (leb (length (x ∷ xs)) room)) [
      | inl e ↦
          (x, xs, rest, rw (e, take_all room (x ∷ xs) (leb→le _ _ e)) refl, leb→le _ _ e, refl)
      | inr e ↦
          let t = take room (x ∷ xs) in
          let d = drop room (x ∷ xs) in
          let (y, ys, q, p) =
            cut-Hands t d (x ∷ xs) rest (take-append-drop room (x ∷ xs))
              (ground (arith, length-take room (x ∷ xs)))
              (ground (arith, length-drop room (x ∷ xs))) in
          let short : length (y ∷ ys) ≤ room =
            subst (λ z. length z ≤ room) q (omega (arith, length-take room (x ∷ xs))) in
          (y, ys, arrives d ∷ rest, rw (e, q) refl, short, p)
    ]

-- What an awaited read returns: it takes just the bytes that it returns, and fits them to the room.
pub record Awaited (room : ℕ) (es : List Arrival) (out : Poll (Result (List ℕ)) × List Arrival)
    : Type 0 where
  pub calm : out.0 ≢ ready panic
  pub fits :
      (chunk : List ℕ)
      → out.0 ≡ ready (ok chunk)
      → (length chunk ≤ room) × (chunk ++ arriving out.1 ≡ arriving es)
  pub same : ((chunk : List ℕ) → out.0 ≢ ready (ok chunk)) → arriving out.1 ≡ arriving es

pub await_read-Awaited : (room : ℕ) (es : List Arrival) → Awaited room es (await_read room es)
unfolding await_read
await_read-Awaited room [] = record { calm = λ h. cc; fits = λ c h. cc; same = λ h. refl }
await_read-Awaited room (not_yet ∷ rest) =
    let a = await_read-Awaited room rest in record { calm = a.calm; fits = a.fits; same = a.same }
await_read-Awaited room (breaks e ∷ rest) = elim (Bool-cases (e == interrupted)) [
  | inl q ↦
      let a = await_read-Awaited room rest in
      rw q (record { calm = a.calm; fits = a.fits; same = a.same })
  | inr q ↦ rw q (record { calm = λ h. cc; fits = λ c h. cc; same = λ h. refl })
]
await_read-Awaited room (arrives bs ∷ rest) = record {
  calm = λ h. cc;
  fits = λ c h.
      let e : take room bs ≡ c = cc in
      rw (← e) (omega (arith, length-take room bs), arriving-keep room bs rest);
  same = λ h. absurd (h (take room bs) refl);
}

-- A read with room returns a byte at least where one is coming, and those behind it are still coming.
abbrev pub Gives : List Arrival → Poll (Result (List ℕ)) × List Arrival → Type 0
Gives es out =
    (chunk : List ℕ) × (rest : List Arrival) × (out ≡ (ready (ok chunk), rest))
    × (0 < length chunk)
    × (length chunk + length (coming rest) ≡ length (coming es))

cut-Gives :
    (room : ℕ) (x : ℕ) (xs : List ℕ) (rest : List Arrival)
    → 0 < room
    → Gives (arrives (x ∷ xs) ∷ rest) (ready (ok (take room (x ∷ xs))), keep room (x ∷ xs) rest)
unfolding keep
cut-Gives room x xs rest h = elim (Bool-cases (leb (length (x ∷ xs)) room)) [
  | inl e ↦ (
    take room (x ∷ xs),
    rest,
    rw e refl,
    ground (arith, length-take room (x ∷ xs)),
    ground (arith, length-take room (x ∷ xs), length-append (x ∷ xs) (coming rest)),
  )
  | inr e ↦ (
    take room (x ∷ xs),
    arrives (drop room (x ∷ xs)) ∷ rest,
    rw e refl,
    ground (arith, length-take room (x ∷ xs)),
    left (drop room (x ∷ xs)) (ground (arith, length-drop room (x ∷ xs)))
        (ground (arith, length-drop room (x ∷ xs), length-take room (x ∷ xs))),
  )
]
  where
    left :
        (d : List ℕ)
        → 0 < length d
        → length (take room (x ∷ xs)) + length d ≡ length (x ∷ xs)
        → length (take room (x ∷ xs)) + length (coming (arrives d ∷ rest))
          ≡ length ((x ∷ xs) ++ coming rest)
    left [] p q = absurd (omega arith)
    left (y ∷ ys) p q =
        omega (arith, q, length-append (y ∷ ys) (coming rest), length-append (x ∷ xs) (coming rest))

pub await_read-Gives :
    (room : ℕ) (es : List Arrival)
    → 0 < room
    → 0 < length (coming es)
    → Gives es (await_read room es)
unfolding await_read
await_read-Gives room [] h k = absurd (omega arith)
await_read-Gives room (not_yet ∷ rest) h k = await_read-Gives room rest h k
await_read-Gives room (breaks e ∷ rest) h k =
    again (e == interrupted) (await_read-Gives room rest h) k
  where
    again :
        (b : Bool)
        → (0 < length (coming rest) → Gives rest (await_read room rest))
        → 0 < length (if b then coming rest else [])
        → (chunk : List ℕ) × (rest' : List Arrival) × ((if b
              then await_read room rest
              else (ready (err (Error.device e)), rest))
            ≡ (ready (ok chunk), rest'))
          × (0 < length chunk)
          × (length chunk + length (coming rest') ≡ length (if b then coming rest else []))
    again true ih k = ih k
    again false ih k = absurd (omega arith)
await_read-Gives room (arrives [] ∷ rest) h k = absurd (omega arith)
await_read-Gives room (arrives (x ∷ xs) ∷ rest) h k = cut-Gives room x xs rest h

-- What a writer answers to its next call: `takes n` accepts up to `n` bytes, or flushes, or shuts down.
pub data Answer : Type 0 where
  busy : Answer
  fails : ℕ → Answer
  takes : ℕ → Answer

pub record Sink : Type 0 where
  pub answers : List Answer
  pub sent : List ℕ

-- By clauses on the answers, where `out` is what was sent.
unfoldable pub write_by : List Answer → List ℕ → List ℕ → Poll (Result ℕ) × Sink
write_by [] out bs = (pending, record { answers = []; sent = out })
write_by (busy ∷ rest) out bs = (pending, record { answers = rest; sent = out })
write_by (fails e ∷ rest) out bs =
    (ready (err (Error.device e)), record { answers = rest; sent = out })
write_by (takes n ∷ rest) out bs =
    let written = min n (length bs) in
    (ready (ok written), record { answers = rest; sent = out ++ take written bs })

unfoldable pub poll_write : List ℕ → Sink → Poll (Result ℕ) × Sink
unfolding write_by
poll_write bs k = write_by k.answers k.sent bs

-- `poll_flush` and `poll_shutdown` of the writer.
unfoldable pub done_by : List Answer → List ℕ → Poll (Result (Unit {0})) × Sink
done_by [] out = (pending, record { answers = []; sent = out })
done_by (busy ∷ rest) out = (pending, record { answers = rest; sent = out })
done_by (fails e ∷ rest) out = (ready (err (Error.device e)), record { answers = rest; sent = out })
done_by (takes n ∷ rest) out = (ready (ok tt), record { answers = rest; sent = out })

unfoldable pub poll_done : Sink → Poll (Result (Unit {0})) × Sink
unfolding done_by
poll_done k = done_by k.answers k.sent

-- A flush sends nothing by itself, and does not panic.
done_by_lem :
    (answers : List Answer) (out : List ℕ)
    → ((done_by answers out).1.sent ≡ out) × ((done_by answers out).0 ≢ ready panic)
unfolding done_by
done_by_lem [] out = (refl, λ h. cc)
done_by_lem (busy ∷ rest) out = (refl, λ h. cc)
done_by_lem (fails e ∷ rest) out = (refl, λ h. cc)
done_by_lem (takes n ∷ rest) out = (refl, λ h. cc)

pub poll_done_lem : (k : Sink) → ((poll_done k).1.sent ≡ k.sent) × ((poll_done k).0 ≢ ready panic)
unfolding poll_done
poll_done_lem k = done_by_lem k.answers k.sent
