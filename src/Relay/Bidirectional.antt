-- ===== src/Relay/Bidirectional.antt =====
-- src/udp_relay.rs: a direction with its shutdown, and the two directions of a relay together.
pub mod Association
use rust_proxy.Prelude.{
  ℕ, ◌+◌, ◌-◌, ◌*◌, ◌^◌, Bool, not, ◌||◌, Option, none, some, List, map, leb, ◌==◌, if◌then◌else◌,
  Arrival, takes, Result, ok, err, panic, Poll, pending, ready,
}
use mathlib.Core.Option
use rust_proxy.Relay.{CopyBuffer, Outbox, World, Done, done_by, poll_copy}
use rust_proxy.Relay as Relay

pub data TransferState : Type 0 where
  running : TransferState
  shutting_down : TransferState
  done : TransferState

abbrev pub Transfer : Type 0
Transfer = Poll (Result (Unit {0})) × TransferState × World

-- The answer of the writer's `poll_shutdown_message`, behind which the loop sees `Done`.
unfoldable pub shut_answer : World → Poll (Result (Unit {0})) × Outbox → Transfer
shut_answer w (pending, k) = (pending, shutting_down, record w { out = k })
shut_answer w (ready (err e), k) = (ready (err e), shutting_down, record w { out = k })
shut_answer w (ready panic, k) = (ready panic, shutting_down, record w { out = k })
shut_answer w (ready (ok _), k) = (ready (ok tt), done, record w { out = k })

unfoldable pub after_copy : Done → Transfer
after_copy (pending, w) = (pending, running, w)
after_copy (ready (err e), w) = (ready (err e), running, w)
after_copy (ready panic, w) = (ready panic, running, w)
after_copy (ready (ok _), w) = shut_answer w (done_by w.out.answers w.out.sent)

-- The loop by the state that it starts in; each state is met once.
unfoldable pub transfer_one_direction : Bool → Bool → TransferState → World → Option Transfer
transfer_one_direction budget pings done w = some (ready (ok tt), done, w)
transfer_one_direction budget pings shutting_down w =
    some (shut_answer w (done_by w.out.answers w.out.sent))
transfer_one_direction budget pings running w = elim (poll_copy budget pings w) [
  | none ↦ none
  | some d ↦ some (after_copy d)
]

-- `a_flow` is `a_buf` with what `a` gives and `b` takes. Times are in nanoseconds.
pub record CopyBidirectional : Type 0 where
  pub a_flow : World
  pub b_flow : World
  pub a_to_b : TransferState
  pub b_to_a : TransferState
  pub sleep_future : ℕ
  pub last_active : ℕ

-- What a poll meets outside: the time, whether the timer has fired, tokio's budget for each direction,
-- whether each side supports pings, and whether a ping to `a`, or to `b`, has written something.
pub record Outside : Type 0 where
  pub now : ℕ
  pub fired : Bool
  pub a_budget : Bool
  pub b_budget : Bool
  pub a_supports : Bool
  pub b_supports : Bool
  pub a_pings : Bool
  pub b_pings : Bool

abbrev pub ping_interval : ℕ
ping_interval = 60 * 10 ^ 9

abbrev pub association_timeout : ℕ
association_timeout = 200 * 10 ^ 9

unfoldable pub need_ping : Bool → World → World
need_ping supports w = record w { state = record (w.state) { need_write_ping = supports } }

unfoldable pub check_timer : Outside → CopyBidirectional → CopyBidirectional
check_timer o c =
    if o.fired
    then record c {
      a_flow = need_ping o.b_supports c.a_flow;
      b_flow = need_ping o.a_supports c.b_flow;
      sleep_future = o.now + ping_interval;
    }
    else c

abbrev pub Polled : Type 0
Polled = Poll (Result (Unit {0})) × CopyBidirectional

-- The answer of the first direction that is ready, the one from `a` first.
unfoldable pub first_ready :
    Poll (Result (Unit {0})) → Poll (Result (Unit {0})) → Poll (Result (Unit {0}))
first_ready (ready r) q = ready r
first_ready pending q = q

-- Something was read where a count has changed; `elapsed` stops at 0.
unfoldable pub concluded :
    Outside → CopyBidirectional → CopyBidirectional → Poll (Result (Unit {0})) → Polled
concluded o c c' r =
    if not (c'.a_flow.state.read_count == c.a_flow.state.read_count)
      || not (c'.b_flow.state.read_count == c.b_flow.state.read_count)
    then (r, record c' { last_active = o.now })
    else if leb association_timeout (o.now - c'.last_active)
    then (ready (ok tt), c')
    else (r, c')

unfoldable pub joined : Outside → CopyBidirectional → Transfer → Transfer → Polled
joined o c (p, s, w) (q, t, v) =
    concluded o c (record c { a_flow = w; b_flow = v; a_to_b = s; b_to_a = t }) (first_ready p q)

unfoldable pub poll_directions : Outside → CopyBidirectional → Option Polled
poll_directions o c =
    Option.bind (transfer_one_direction o.a_budget o.b_pings c.a_to_b c.a_flow) (λ x.
      Option.map (joined o c x) (transfer_one_direction o.b_budget o.a_pings c.b_to_a c.b_flow))

unfoldable pub poll : Outside → CopyBidirectional → Option Polled
poll o c = poll_directions o (check_timer o c)

-- The relay at its start; the memories are the 65535 bytes of each buffer.
unfoldable pub copy_bidirectional_message :
    ℕ
    → Bool
    → Bool
    → List ℕ
    → List ℕ
    → List Arrival
    → List Arrival
    → Outbox
    → Outbox
    → CopyBidirectional
copy_bidirectional_message now a_initial_flush b_initial_flush a_memory b_memory a_reads b_reads
      a_out b_out =
    record {
      a_flow = record {
        state = Relay.new a_memory b_initial_flush;
        incoming = a_reads;
        out = b_out;
      };
      b_flow = record {
        state = Relay.new b_memory a_initial_flush;
        incoming = b_reads;
        out = a_out;
      };
      a_to_b = running;
      b_to_a = running;
      sleep_future = now + ping_interval;
      last_active = now;
    }
