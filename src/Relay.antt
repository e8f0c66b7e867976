-- ===== src/Relay.antt =====
-- src/udp_relay.rs: copying messages between two streams of messages, one at a time.
pub mod Steps
pub mod Order
pub mod Bidirectional
pub mod Routing
use rust_proxy.Prelude.{
  ℕ, zero, suc, ◌+◌, ◌%◌, ◌^◌, ◌⊎◌, inl, inr, Bool, true, false, not, ◌&&◌, ◌||◌, Option, none,
  some, List, [], ◌∷◌, ◌++◌, ltb, leb, ◌==◌, if◌then◌else◌, length, take, write_at, Arrival,
  not_yet, breaks, arrives, Answer, busy, fails, takes, Error, Result, ok, err, panic, Poll,
  pending, ready,
}

pub record CopyBuffer : Type 0 where
  pub read_done : Bool
  pub need_flush : Bool
  pub need_write_ping : Bool
  pub cache_length : ℕ
  pub buf : List ℕ
  pub read_count : ℕ

-- `memory` is the 65535 bytes that `allocate_vec` hands out.
abbrev pub new : List ℕ → Bool → CopyBuffer
new memory need_flush = record {
  read_done = false;
  need_flush = need_flush;
  need_write_ping = false;
  cache_length = 0;
  buf = memory;
  read_count = 0;
}

-- What a stream of messages gives to the next `poll_read_message`: here an arrival is a whole message,
-- and what the buffer has no room for is lost.
abbrev pub poll_message : ℕ → List Arrival → Poll (Result (List ℕ)) × List Arrival
poll_message room [] = (pending, [])
poll_message room (not_yet ∷ rest) = (pending, rest)
poll_message room (breaks e ∷ rest) = (ready (err (Error.device e)), rest)
poll_message room (arrives bs ∷ rest) = (ready (ok (take room bs)), rest)

-- A writer of messages: what it answers to the next calls, and the messages that it has taken.
pub record Outbox : Type 0 where
  pub answers : List Answer
  pub sent : List (List ℕ)

unfoldable pub write_by : List Answer → List (List ℕ) → List ℕ → Poll (Result (Unit {0})) × Outbox
write_by [] out bs = (pending, record { answers = []; sent = out })
write_by (busy ∷ rest) out bs = (pending, record { answers = rest; sent = out })
write_by (fails e ∷ rest) out bs =
    (ready (err (Error.device e)), record { answers = rest; sent = out })
write_by (takes n ∷ rest) out bs =
    (ready (ok tt), record { answers = rest; sent = out ++ (bs ∷ []) })

-- A flush, a ping or a shutdown.
unfoldable pub done_by : List Answer → List (List ℕ) → Poll (Result (Unit {0})) × Outbox
done_by [] out = (pending, record { answers = []; sent = out })
done_by (busy ∷ rest) out = (pending, record { answers = rest; sent = out })
done_by (fails e ∷ rest) out = (ready (err (Error.device e)), record { answers = rest; sent = out })
done_by (takes n ∷ rest) out = (ready (ok tt), record { answers = rest; sent = out })

pub record World : Type 0 where
  pub state : CopyBuffer
  pub incoming : List Arrival
  pub out : Outbox

-- A part of a round: it may fail, and `?` then ends the call.
abbrev pub Step : Type 0 → Type 0
Step A = World → Result A × World

abbrev pub bound : {A B : Type 0} → Result A × World → (A → Step B) → Result B × World
bound (ok a, w) f = f a w
bound (err e, w) f = (err e, w)
bound (panic, w) f = (panic, w)

infixl 5 ◌>>=◌
abbrev pub ◌>>=◌ : {A B : Type 0} → Step A → (A → Step B) → Step B
◌>>=◌ m f w = bound (m w) f

-- Whether something was moved, and whether the side is pending.
abbrev pub Moved : Type 0
Moved = Bool × Bool

unfoldable pub read_answer : World → Poll (Result (List ℕ)) × List Arrival → Result Moved × World
read_answer w (pending, es) = (ok (false, true), record w { incoming = es })
read_answer w (ready (err e), es) = (err e, record w { incoming = es })
read_answer w (ready panic, es) = (panic, record w { incoming = es })
read_answer w (ready (ok []), es) =
    (ok (false, false), record w { state = record (w.state) { read_done = true }; incoming = es })
read_answer w (ready (ok (x ∷ xs)), es) =
    let n = length (x ∷ xs) in
    let c = w.state in
    (
      ok (true, false),
      record w {
        state = record c {
          cache_length = n;
          buf = write_at c.buf 0 (x ∷ xs);
          read_count = (c.read_count + n) % 2 ^ 64;
        };
        incoming = es;
      },
    )

unfoldable pub reading : Step Moved
reading w =
    if not w.state.read_done && (w.state.cache_length == 0)
    then read_answer w (poll_message (length w.state.buf) w.incoming)
    else (ok (false, false), w)

abbrev pub cached_bytes : CopyBuffer → List ℕ
cached_bytes c = take c.cache_length c.buf

unfoldable pub write_answer : World → Poll (Result (Unit {0})) × Outbox → Result Moved × World
write_answer w (pending, k) = (ok (false, true), record w { out = k })
write_answer w (ready (err e), k) = (err e, record w { out = k })
write_answer w (ready panic, k) = (panic, record w { out = k })
write_answer w (ready (ok _), k) = (
  ok (true, false),
  record w {
    state = record (w.state) { cache_length = 0; need_flush = true; need_write_ping = false };
    out = k;
  },
)

-- A slice outside the memory is a panic.
unfoldable pub writing : Step Moved
writing w =
    if ltb 0 w.state.cache_length
    then (if leb w.state.cache_length (length w.state.buf)
        then write_answer w (write_by w.out.answers w.out.sent (cached_bytes w.state))
        else (panic, w))
    else (ok (false, false), w)

-- `pings` says whether a ping that is ready has written something.
unfoldable pub ping_answer : Bool → World → Poll (Result (Unit {0})) × Outbox → Result Bool × World
ping_answer pings w (pending, k) = (ok true, record w { out = k })
ping_answer pings w (ready (err e), k) = (err e, record w { out = k })
ping_answer pings w (ready panic, k) = (panic, record w { out = k })
ping_answer pings w (ready (ok _), k) =
    let c = w.state in
    (
      ok false,
      record w {
        state = record c { need_write_ping = false; need_flush = c.need_flush || pings };
        out = k;
      },
    )

-- Whether the writer is pending afterwards.
unfoldable pub pinging : Bool → Bool → Step Bool
pinging pings write_pending w =
    if not write_pending && w.state.need_write_ping
    then ping_answer pings w (done_by w.out.answers w.out.sent)
    else (ok write_pending, w)

-- The end of a round: it returns, or `continue`.
pub data Verdict : Type 0 where
  returns : Poll (Result (Unit {0})) → Verdict
  continues : Verdict

unfoldable pub flush_answer : World → Poll (Result (Unit {0})) × Outbox → Result Verdict × World
flush_answer w (pending, k) = (ok (returns pending), record w { out = k })
flush_answer w (ready (err e), k) = (err e, record w { out = k })
flush_answer w (ready panic, k) = (panic, record w { out = k })
flush_answer w (ready (ok _), k) =
    (ok continues, record w { state = record (w.state) { need_flush = false }; out = k })

unfoldable pub decide : Bool → Bool → Bool → Bool → Step Verdict
decide did_read did_write read_pending write_pending w =
    if did_read && (did_write && (not read_pending && not write_pending))
    then (ok continues, w)
    else if w.state.need_flush
    then flush_answer w (done_by w.out.answers w.out.sent)
    else if w.state.read_done && (w.state.cache_length == 0)
    then (ok (returns (ready (ok tt))), w)
    else if read_pending || write_pending
    then (ok (returns pending), w)
    else (ok continues, w)

unfoldable pub round : Bool → Step Verdict
round pings = do
  (did_read, read_pending) ← reading
  (did_write, write_blocked) ← writing
  write_pending ← pinging pings write_blocked
  decide did_read did_write read_pending write_pending

abbrev pub Done : Type 0
Done = Poll (Result (Unit {0})) × World

unfoldable pub verdict : Result Verdict × World → Done ⊎ World
verdict (ok (returns p), w) = inl (p, w)
verdict (ok continues, w) = inr w
verdict (err e, w) = inl (ready (err e), w)
verdict (panic, w) = inl (ready panic, w)

unfoldable pub rounds : ℕ → Bool → World → Option Done
rounds zero pings w = none
rounds (suc fuel) pings w = elim (verdict (round pings w)) [
  | inl out ↦ some out
  | inr w' ↦ rounds fuel pings w'
]

-- The answers that are still to come: a round that goes on takes one at least.
abbrev pub answers_left : World → ℕ
answers_left w = length w.incoming + length w.out.answers

-- `budget` is what tokio's `poll_proceed` answers.
unfoldable pub poll_copy : Bool → Bool → World → Option Done
poll_copy budget pings w = if budget then rounds (answers_left w + 1) pings w else some (pending, w)
