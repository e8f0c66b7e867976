-- ===== src/Anytls/Session/Loop.antt =====
-- src/anytls/session.rs, recv_loop and run: the frames of what the connection gives, handled one by one.
use rust_proxy.Prelude.{
  ℕ, zero, suc, ◌+◌, Bool, true, false, Option, none, some, List, [], ◌∷◌, ◌++◌, length, Arrival,
  not_yet, breaks, arrives, Error, Result, ok, err, panic, Poll, pending, ready,
}
use rust_proxy.Anytls.Types.{Frame, decode}
use rust_proxy.Anytls.Session.Wire.{Padding}
use rust_proxy.Anytls.Session.Receive.{Session, Texts, Handled, close, handle_frame}

-- For each frame in turn, whether what it writes is written in time; at the end of the list it is.
abbrev pub Times : Type 0
Times = List Bool

abbrev pub next_time : Times → Bool
next_time [] = true
next_time (t ∷ ts) = t

abbrev pub later_times : Times → Times
later_times [] = []
later_times (t ∷ ts) = ts

-- A session at work: its times, and the session.
abbrev pub Working : Type 0
Working = Times × Session

-- `while let Some(frame) = decode(&mut buffer)?` ends with the bytes that are left, or with an error.
abbrev pub Drained : Type 0
Drained = Result (List ℕ) × Working

abbrev pub Received : Type 0
Received = Poll (Result (Unit {0})) × Working

-- The test at the start of each pass.
unfoldable pub unless_closed : Bool → Working → Option Received → Option Received
unless_closed true w rest = some (ready (ok tt), w)
unless_closed false w rest = rest

module _ (p : Padding) (texts : Texts) where
  unfoldable pub after_frame : Times → Handled → Result (Unit {0}) × Working
  after_frame ts (r, s) = (r, (later_times ts, s))

  abbrev pub handle_next : Frame → Working → Result (Unit {0}) × Working
  handle_next f (ts, s) = after_frame ts (handle_frame p texts (next_time ts) f s)

  -- An error of a frame ends the loop; else `goes` is the rest of it.
  unfoldable pub handled : (Working → Option Drained) → Result (Unit {0}) × Working → Option Drained
  handled goes (ok _, w) = goes w
  handled goes (err e, w) = some (err e, w)
  handled goes (panic, w) = some (panic, w)

  unfoldable pub drain : ℕ → List ℕ → Working → Option Drained
  drain zero buffer w = none
  drain (suc fuel) buffer w = elim (decode buffer) [
    | err e ↦ some (err e, w)
    | panic ↦ some (panic, w)
    | ok (none, left) ↦ some (ok left, w)
    | ok (some f, left) ↦ handled (drain fuel left) (handle_next f w)
  ]

  -- A frame has a byte at least, so that each turn leaves fewer.
  abbrev pub drain_all : List ℕ → Working → Option Drained
  drain_all buffer w = drain (length buffer + 1) buffer w

  -- One pass of the outer loop up to the read, where `read` goes on with the bytes that are left.
  unfoldable pub turn : (List ℕ → Working → Option Received) → Option Drained → Option Received
  turn read none = none
  turn read (some (ok left, w)) = read left w
  turn read (some (err e, w)) = some (ready (err e), w)
  turn read (some (panic, w)) = some (ready panic, w)

  -- The read, by what the connection gives; bytes that arrive are added to the buffer, and the loop turns.
  -- Where the list ends, the read waits.
  unfoldable pub read_buf : List Arrival → List ℕ → Working → Option Received
  read_buf [] buffer w = some (pending, w)
  read_buf (not_yet ∷ rest) buffer w = read_buf rest buffer w
  read_buf (breaks e ∷ rest) buffer w = some (ready (err (Error.device e)), w)
  read_buf (arrives [] ∷ rest) buffer w = some (ready (ok tt), w)
  read_buf (arrives (x ∷ xs) ∷ rest) buffer w =
      unless_closed w.1.is_closed w (turn (read_buf rest) (drain_all (buffer ++ (x ∷ xs)) w))

  -- `initial` are the bytes that were buffered while the client was authenticated.
  unfoldable pub recv_loop : List ℕ → List Arrival → Working → Option Received
  recv_loop initial es w = unless_closed w.1.is_closed w (turn (read_buf es) (drain_all initial w))

  unfoldable pub closed : Received → Received
  closed (pending, w) = (pending, w)
  closed (ready r, (ts, s)) = (ready r, (ts, close s))

  -- `run`: the session is closed behind the loop. The task of the outgoing messages is another component.
  unfoldable pub run : List ℕ → List Arrival → Working → Option Received
  run initial es w = elim (recv_loop initial es w) [ none ↦ none | some r ↦ some (closed r) ]
