-- ===== src/Copy/Bidirectional.antt =====
-- src/copy_bidirectional.rs, CopyBidirectional and copy_bidirectional_with_sizes: the two directions together.
pub mod Both
use rust_proxy.Prelude.{
  ℕ, ◌+◌, ◌*◌, ◌^◌, Bool, ◌||◌, Option, none, some, List, [], ◌∷◌, map, if◌then◌else◌, set, Arrival,
  takes, Sink, Result, ok, err, panic, Poll, pending, ready,
}
use mathlib.Core.Option
use rust_proxy.Copy.{World, Done, CopyBuffer, with_ring}
use rust_proxy.Copy as Copy
use rust_proxy.Copy.Transfer.{TransferState, running, Transfer, transfer_one_direction}

-- A direction has its buffer, what its reader gives and what its writer takes in a `World`: `a_flow` is `a_buf`
-- from `a` to `b`. `sleep_future` is where there is a timer, the moment that it is set to.
pub record CopyBidirectional : Type 0 where
  pub a_flow : World
  pub b_flow : World
  pub a_to_b : TransferState
  pub b_to_a : TransferState
  pub sleep_future : Option ℕ

-- What a poll meets outside: the time, whether the timer has fired, tokio's budget for each direction,
-- whether each side supports pings, and whether a ping to `a`, or to `b`, has written something.
pub record Outside : Type 0 where
  pub now : ℕ
  pub fired : Bool
  pub a_budget : Bool
  pub b_budget : Bool
  pub a_supports : Bool
  pub b_supports : Bool
  pub a_pings : Bool
  pub b_pings : Bool

unfoldable pub need_ping : Bool → World → World
need_ping supports w = with_ring w (record (w.ring) { need_write_ping = supports })

-- A minute, in nanoseconds.
abbrev pub ping_interval : ℕ
ping_interval = 60 * 10 ^ 9

-- The timer, where it has fired: both buffers are asked for a ping, and it is set again.
unfoldable pub check_timer : Outside → CopyBidirectional → Option ℕ → CopyBidirectional
check_timer o c none = c
check_timer o c (some _) =
    if o.fired
    then record c {
      a_flow = need_ping o.b_supports c.a_flow;
      b_flow = need_ping o.a_supports c.b_flow;
      sleep_future = some (o.now + ping_interval);
    }
    else c

-- The match on the two answers, behind both polls: a panic of either ends the call, and the error of the
-- direction from `a` comes before that of the other.
unfoldable pub both : Poll (Result (Unit {0})) → Poll (Result (Unit {0})) → Poll (Result (Unit {0}))
both (ready (err e)) (ready panic) = ready panic
both (ready (err e)) (ready (err e')) = ready (err e)
both (ready (err e)) (ready (ok _)) = ready (err e)
both (ready (err e)) pending = ready (err e)
both (ready panic) q = ready panic
both pending (ready (err e)) = ready (err e)
both pending (ready panic) = ready panic
both (ready (ok _)) (ready (err e)) = ready (err e)
both (ready (ok _)) (ready panic) = ready panic
both (ready (ok _)) (ready (ok _)) = ready (ok tt)
both pending pending = pending
both pending (ready (ok _)) = pending
both (ready (ok _)) pending = pending

abbrev pub Polled : Type 0
Polled = Poll (Result (Unit {0})) × CopyBidirectional

unfoldable pub joined : CopyBidirectional → Transfer → Transfer → Polled
joined c (p, s, w) (q, t, v) =
    (both p q, record c { a_flow = w; b_flow = v; a_to_b = s; b_to_a = t })

unfoldable pub poll_directions : Outside → CopyBidirectional → Option Polled
poll_directions o c =
    Option.bind (transfer_one_direction o.a_budget o.b_pings c.a_to_b c.a_flow)
      (λ x. Option.map (joined c x) (transfer_one_direction o.b_budget o.a_pings c.b_to_a c.b_flow))

unfoldable pub poll : Outside → CopyBidirectional → Option Polled
poll o c = poll_directions o (check_timer o c c.sleep_future)

-- A future is polled until it is ready, once for each `Outside`.
unfoldable pub polls : List Outside → CopyBidirectional → Option Polled
polls [] c = some (pending, c)
polls (o ∷ os) c = elim (poll o c) [
  | none ↦ none
  | some (pending, c') ↦ polls os c'
  | some (ready r, c') ↦ some (ready r, c')
]

-- The two buffers start at `now` with their memories, and with what is to be read and taken on both sides.
unfoldable pub copy_bidirectional_with_sizes :
    Outside
    → Bool
    → Bool
    → List ℕ
    → List ℕ
    → List Arrival
    → List Arrival
    → Sink
    → Sink
    → CopyBidirectional
copy_bidirectional_with_sizes o a_flush b_flush a_memory b_memory a_reads b_reads a_sink b_sink =
    record {
      a_flow = record { ring = Copy.new a_memory b_flush; incoming = a_reads; out = b_sink };
      b_flow = record { ring = Copy.new b_memory a_flush; incoming = b_reads; out = a_sink };
      a_to_b = running;
      b_to_a = running;
      sleep_future = if o.a_supports || o.b_supports then some (o.now + ping_interval) else none;
    }
